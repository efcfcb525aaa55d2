-- ===== src/Crypto.antt =====
-- Encryption of passwords at rest: api/src/utils/crypto.rs (lines 42 to 106).
pub mod Laws
use Prim.Native.String.{◌++◌}
use dbsaa_s.Prelude.{
  ℕ, ◌+◌, ◌-◌, ◌*◌, Bool, Option, none, some, List, [], ◌∷◌, String, ltb, leb, ◌==◌, ◌&&◌,
  if◌then◌else◌, length, not, ◌⊎◌, inl, inr, zero, suc, ◌++◌ as append,
}
use dbsaa_s.Errors.{AppError, Result, ok, err}

-- What the crates give: AES-256-GCM (key, nonce, text), base64, UTF-8. A failure is its text.
pub record Primitives : Type 0 where
  pub new_from_slice : List ℕ → String ⊎ List ℕ
  pub seal : List ℕ → List ℕ → List ℕ → String ⊎ List ℕ
  pub unseal : List ℕ → List ℕ → List ℕ → String ⊎ List ℕ
  pub base64_encode : List ℕ → String
  pub base64_decode : String → String ⊎ List ℕ
  pub as_bytes : String → List ℕ
  pub from_utf8 : List ℕ → String ⊎ String

infixl 5 ◌>>=◌
abbrev pub ◌>>=◌ : {A B : Type 0} → Result A → (A → Result B) → Result B
err why >>= next = err why
ok mid >>= next = next mid

-- `.map_err(|e| AppError::Internal(format!("{what}{e}")))`
abbrev pub or_internal : {A : Type 0} → String → String ⊎ A → Result A
or_internal what (inl e) = err (AppError.internal (what ++ e))
or_internal what (inr a) = ok a

-- A digit of `u8::from_str_radix(_, 16)`.
abbrev pub hex_digit : ℕ → Option ℕ
hex_digit c =
    if leb b'0' c && leb c b'9'
    then some (c - b'0')
    else if leb b'a' c && leb c b'f'
    then some (c - b'a' + 10)
    else if leb b'A' c && leb c b'F'
    then some (c - b'A' + 10)
    else none

-- `u8::from_str_radix` on two characters; a leading plus sign is taken.
abbrev pub hex_pair : Option ℕ → Option ℕ → Bool → Option ℕ
hex_pair (some a) (some b) plus = some (a * 16 + b)
hex_pair none (some b) plus = if plus then some b else none
hex_pair _ none plus = none

abbrev pub byte_of : Option ℕ → Result ℕ
byte_of (some b) = ok b
byte_of none = err (AppError.internal "Invalid hex: invalid digit found in string")

unfoldable pub hex_bytes : List ℕ → Result (List ℕ)
hex_bytes [] = ok []
hex_bytes (a ∷ []) = ok []
hex_bytes (a ∷ b ∷ rest) = do
  byte ← byte_of (hex_pair (hex_digit a) (hex_digit b) (a == b'+'))
  bytes ← hex_bytes rest
  ok (byte ∷ bytes)

unfoldable pub hex_decode : List ℕ → Result (List ℕ)
hex_decode hex =
    if not (length hex == 64)
    then err (AppError.internal "Encryption key must be 64 hex chars (32 bytes)")
    else hex_bytes hex

abbrev pub take : {A : Type 0} → ℕ → List A → List A
take n [] = []
take zero (x ∷ xs) = []
take (suc n) (x ∷ xs) = x ∷ take n xs

abbrev pub drop : {A : Type 0} → ℕ → List A → List A
drop n [] = []
drop zero (x ∷ xs) = x ∷ xs
drop (suc n) (x ∷ xs) = drop n xs

module _ (p : Primitives) where
  -- `Aes256Gcm::new_from_slice(&hex_decode(key_hex)?)`
  unfoldable pub cipher_of : String → Result (List ℕ)
  cipher_of key_hex = do
    key_bytes ← hex_decode (p.as_bytes key_hex)
    or_internal "Invalid encryption key: " (p.new_from_slice key_bytes)

  -- `encrypt_string` with the nonce that the generator gave. A key of 64 bytes
  -- that are not ASCII is refused; cutting it in two may panic in the source.
  unfoldable pub encrypt_with : List ℕ → String → String → Result String
  encrypt_with nonce plaintext key_hex = do
    key_bytes ← hex_decode (p.as_bytes key_hex)
    cipher ← or_internal "Invalid encryption key: " (p.new_from_slice key_bytes)
    ciphertext ← or_internal "Encryption failed: " (p.seal cipher nonce (p.as_bytes plaintext))
    ok (p.base64_encode (append nonce ciphertext))

  abbrev pub text_of : String ⊎ String → Result String
  text_of = or_internal "UTF-8 decode failed: "

  unfoldable pub open_with : List ℕ → List ℕ → Result String
  open_with cipher bytes =
      if ltb (length bytes) 12
      then err (AppError.internal "Invalid encrypted data")
      else or_internal "Decryption failed: " (p.unseal cipher (take 12 bytes) (drop 12 bytes))
        >>= λ text. text_of (p.from_utf8 text)

  unfoldable pub decrypt_string : String → String → Result String
  unfolding open_with
  decrypt_string encrypted key_hex = do
    key_bytes ← hex_decode (p.as_bytes key_hex)
    cipher ← or_internal "Invalid encryption key: " (p.new_from_slice key_bytes)
    bytes ← or_internal "Base64 decode failed: " (p.base64_decode encrypted)
    open_with cipher bytes
