-- ===== src/Net.antt =====
-- Addresses of clients and of webhooks: api/src/middleware/rate_limit.rs (lines 16 to 80), api/src/services/alert.rs
-- (lines 45 to 62). The tests on an address are those of Rust's standard library.
pub mod Blocks
use dbsaa_s.Prelude.{
  ℕ, ◌-◌, ◌*◌, ◌/◌, ◌%◌, Bool, true, false, not, Option, none, some, String, leb, ◌==◌, ◌&&◌, ◌||◌,
  if◌then◌else◌,
}
use dbsaa_s.Text.{before, trim}
use dbsaa_s.Errors.{AppError, ok}
use dbsaa_s.Platform.{M, Services, pure, throw_if, call, ◌>>=◌, ◌>>◌}

-- The octets of an IPv4 address; an IPv6 address as its 128-bit number.
pub data IpAddr : Type 0 where
  v4 : ℕ → ℕ → ℕ → ℕ → IpAddr
  v6 : ℕ → IpAddr

-- `Ipv4Addr`: 127.0.0.0/8, the three private blocks, 169.254.0.0/16, 255.255.255.255, 0.0.0.0
abbrev pub is_loopback : ℕ → Bool
is_loopback a = a == 127

abbrev pub is_private : ℕ → ℕ → Bool
is_private a b = a == 10 || ((a == 172 && (leb 16 b && leb b 31)) || (a == 192 && b == 168))

abbrev pub is_link_local : ℕ → ℕ → Bool
is_link_local a b = a == 169 && b == 254

abbrev pub is_broadcast : ℕ → ℕ → ℕ → ℕ → Bool
is_broadcast a b c d = a == 255 && (b == 255 && (c == 255 && d == 255))

abbrev pub is_unspecified : ℕ → ℕ → ℕ → ℕ → Bool
is_unspecified a b c d = a == 0 && (b == 0 && (c == 0 && d == 0))

-- `b & 0xC0` of an octet: its two highest bits.
abbrev pub high_bits : ℕ → ℕ
high_bits b = b - b % 64

unfoldable pub is_internal_ip : IpAddr → Bool
is_internal_ip (IpAddr.v4 a b c d) =
    is_loopback a
    || (is_private a b
        || (is_link_local a b
            || (is_broadcast a b c d
                || (is_unspecified a b c d
                    || ((a == 169 && b == 254) || (a == 100 && high_bits b == 64))))))
is_internal_ip (IpAddr.v6 n) = n == 1 || n == 0

unfoldable pub is_trusted_proxy : IpAddr → Bool
is_trusted_proxy (IpAddr.v4 a b c d) = is_loopback a || is_private a b
is_trusted_proxy (IpAddr.v6 n) = n == 1

-- A request: the peer's address, if the connection has one, and the two headers, where they are texts.
pub record Origin : Type 0 where
  pub peer : Option IpAddr
  pub x_forwarded_for : Option String
  pub x_real_ip : Option String

-- `str::parse::<IpAddr>` is a parameter.
module _ (parse : String → Option IpAddr) where
  abbrev pub of_text : (String → String) → Option String → Option IpAddr
  of_text f none = none
  of_text f (some text) = parse (trim (f text))

  abbrev pub or_ip : Option IpAddr → IpAddr → IpAddr
  or_ip none ip = ip
  or_ip (some found) ip = found

  -- The first of the headers that holds an address.
  abbrev pub by_headers : Origin → IpAddr → IpAddr
  by_headers request peer =
      or_ip (of_text (before b',') request.x_forwarded_for)
        (or_ip (of_text (λ text. text) request.x_real_ip) peer)

  unfoldable pub extract_client_ip : Origin → IpAddr
  extract_client_ip request =
      let peer = or_ip request.peer (IpAddr.v4 127 0 0 1) in
      if is_trusted_proxy peer then by_headers request peer else peer

  -- `check_key` of the limiter, where the request has one; the rest of the request is `next`.
  unfoldable pub rate_limit_middleware :
      {W A : Type 0} → Option (IpAddr → W → Bool × W) → Origin → M W A → M W A
  rate_limit_middleware none request next = next
  rate_limit_middleware {W} (some check_key) request next = do
    is_ok ← checked
    throw_if (not is_ok) AppError.rate_limited
    next
    where
      checked : M W Bool
      checked s =
          let (free, w) = check_key (extract_client_ip request) s.world in
          (ok free, record s { world = w })
