-- ===== src/Provisioner/Firewall.antt =====
-- The nftables script of a peering: api/src/services/provisioner.rs (lines 1040 to 1132).
pub mod Commands
pub mod Scripts
use Prim.Native.String.{◌++◌, len, slice}
use dbsaa_s.Prelude.{
  ℕ, Bool, true, false, not, Option, none, some, List, [], ◌∷◌, String, str_eq, ltb, ◌==◌, ◌&&◌,
  ◌||◌, if◌then◌else◌,
}
use dbsaa_s.Prelude.Int.{ℤ, pos, leb_ℤ}
use dbsaa_s.Errors.{AppError}
use dbsaa_s.Provisioner.Host.{exec_on_host}
use dbsaa_s.Platform.{M, Docker, Services, pure, throw_if, call, ignore, ◌>>=◌, ◌>>◌}
use dbsaa_s.Text.{codes, show_i32}

-- (src_subnet, dst_subnet, port, protocol, action)
pub record Rule : Type 0 where
  pub src_subnet : String
  pub dst_subnet : String
  pub port : Option ℤ
  pub protocol : Option String
  pub action : String

abbrev pub all_codes : (ℕ → Bool) → List ℕ → Bool
all_codes p [] = true
all_codes p (c ∷ cs) = let rest = all_codes p cs in if p c then rest else false

abbrev pub get_or_tcp : Option String → String
get_or_tcp none = "tcp"
get_or_tcp (some p) = p

abbrev pub table_of : String → String
table_of peering_id = "sb_peer_" ++ slice peering_id 0 8

-- `nft add rule inet {table} forward iifname {bridge} oifname {bridge} `
abbrev pub rule_head : String → String → String
rule_head table bridge =
    "nft add rule inet " ++ table ++ " forward iifname " ++ bridge ++ " oifname " ++ bridge ++ " "

abbrev pub rule_line : String → String → Rule → String
rule_line table bridge r =
    let verdict = if str_eq r.action "allow" then "accept; " else "drop; " in
    rule_head table bridge
    ++ "ip saddr "
    ++ r.src_subnet
    ++ " ip daddr "
    ++ r.dst_subnet
    ++ " "
    ++ port_part r.port
    ++ verdict
  where
    port_part : Option ℤ → String
    port_part none = ""
    port_part (some p) = get_or_tcp r.protocol ++ " dport " ++ show_i32 p ++ " "

abbrev pub preamble : String → String → String
preamble table bridge =
    "nft delete table inet "
    ++ table
    ++ " 2>/dev/null; "
    ++ "nft add table inet "
    ++ table
    ++ "; nft add chain inet "
    ++ table
    ++ " forward { type filter hook forward priority -1\\; policy accept\\; }; "
    ++ rule_head table bridge
    ++ "ct state established,related accept; "

module _ {W : Type 0} (svc : Services W) where
  abbrev pub safe_char : ℕ → Bool
  safe_char c =
      svc.is_alphanumeric c || (c == b'.' || (c == b'/' || (c == b'-' || (c == b'_' || c == b':'))))

  unfoldable pub validate_nft_value : String → String → M W (Unit {0})
  validate_nft_value val field_name = do
    throw_if (not (all_codes safe_char (codes val)))
        (AppError.bad_request ("Invalid characters in " ++ field_name ++ ": " ++ val))
    throw_if (str_eq val "" || ltb 64 (len val))
        (AppError.bad_request (field_name ++ " has invalid length"))

  abbrev pub check_port : Option ℤ → M W (Unit {0})
  check_port none = pure tt
  check_port (some p) =
      throw_if (not (leb_ℤ (pos 1) p && leb_ℤ p (pos 65535)))
        (AppError.bad_request ("Invalid port number: " ++ show_i32 p))

  unfoldable pub check_rule : Rule → M W (Unit {0})
  check_rule r = do
    validate_nft_value r.src_subnet "source subnet"
    validate_nft_value r.dst_subnet "destination subnet"
    validate_nft_value (get_or_tcp r.protocol) "protocol"
    check_port r.port

  -- The loop over the rules, on the script written so far.
  unfoldable pub add_rules : String → String → List Rule → String → M W String
  add_rules table bridge [] script = pure script
  add_rules table bridge (r ∷ rs) script = do
    check_rule r
    add_rules table bridge rs (script ++ rule_line table bridge r)

  unfoldable pub apply_firewall_rules : Docker → String → String → List Rule → M W (Unit {0})
  apply_firewall_rules docker peering_id bridge rules = do
    validate_nft_value peering_id "peering_id"
    validate_nft_value bridge "bridge_name"
    let table = table_of peering_id
    script ← add_rules table bridge rules (preamble table bridge)
    exec_on_host svc docker (script ++ rule_head table bridge ++ "drop; " ++ "echo OK")
    pure tt

  -- The result of the script is dropped.
  unfoldable pub remove_firewall_rules : Docker → String → M W (Unit {0})
  remove_firewall_rules docker peering_id = ignore (
      exec_on_host svc docker
        ("nft delete table inet " ++ table_of peering_id ++ " 2>/dev/null; echo OK"))
