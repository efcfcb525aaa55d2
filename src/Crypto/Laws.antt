-- ===== src/Crypto/Laws.antt =====
-- What is encrypted can be decrypted: api/src/utils/crypto.rs.
use dbsaa_s.Prelude.{
  ℕ, ◌≡◌, refl, arith, ap, List, [], ◌∷◌, String, length, ◌⊎◌, inl, inr, ◌++◌ as append,
  length-append, ltb, false,
}
use dbsaa_s.Errors.{Result, ok, err}
use dbsaa_s.Crypto.{
  Primitives, hex_decode, take, drop, encrypt_with, decrypt_string, open_with, or_internal, ◌>>=◌,
}

-- What the crates document: opening with the same key and nonce gives what was sealed, base64 is
-- decoded to what was encoded.
pub record IsFaithful (p : Primitives) : Type 0 where
  pub unseal-seal :
      (key nonce text sealed : List ℕ)
      → p.seal key nonce text ≡ inr sealed
      → p.unseal key nonce sealed ≡ inr text
  pub decode-encode : (bytes : List ℕ) → p.base64_decode (p.base64_encode bytes) ≡ inr bytes

take-append : {A : Type 0} (xs ys : List A) → take (length xs) (append xs ys) ≡ xs
take-append [] [] = refl
take-append [] (y ∷ ys) = refl
take-append (x ∷ xs) ys = ap (λ l. x ∷ l) (take-append xs ys)

drop-append : {A : Type 0} (xs ys : List A) → drop (length xs) (append xs ys) ≡ ys
drop-append [] [] = refl
drop-append [] (y ∷ ys) = refl
drop-append (x ∷ xs) ys = drop-append xs ys

-- A chain of results that is a value has passed through a value.
passed :
    {T U : Type 0} (step : Result T) (next : T → Result U) {out : U}
    → (step >>= next) ≡ ok out
    → (mid : T) × (next mid ≡ ok out) × (step ≡ ok mid)
passed (err why) next h = cc
passed (ok mid) next h = (mid, h, refl)

or_internal-eq-ok :
    {A : Type 0} (what : String) (o : String ⊎ A) {a : A} → or_internal what o ≡ ok a → o ≡ inr a
or_internal-eq-ok what (inl e) h = cc
or_internal-eq-ok what (inr a) h = cc

module _ (p : Primitives) (faithful : IsFaithful p) where
  open_sealed :
      (cipher nonce sealed : List ℕ) (s : String)
      → length nonce ≡ 12
      → p.from_utf8 (p.as_bytes s) ≡ inr s
      → p.seal cipher nonce (p.as_bytes s) ≡ inr sealed
      → open_with p cipher (append nonce sealed) ≡ ok s
  unfolding open_with
  open_sealed cipher nonce sealed s twelve utf8 sealing =
      let long : ltb (length (append nonce sealed)) 12 ≡ false =
        ground (arith, length-append nonce sealed) in
      let front : take 12 (append nonce sealed) ≡ nonce =
        rw (← twelve) (take-append nonce sealed) in
      let back : drop 12 (append nonce sealed) ≡ sealed =
        rw (← twelve) (drop-append nonce sealed) in
      rw (long, front, back, faithful.unseal-seal cipher nonce _ sealed sealing, utf8) refl

  -- A text that is got back from its bytes and was encrypted is got back by decrypting with the same
  -- key, whatever the nonce of twelve bytes was.
  pub decrypt_string-encrypt_with :
      (nonce : List ℕ) (s key stored : String)
      → length nonce ≡ 12
      → p.from_utf8 (p.as_bytes s) ≡ inr s
      → encrypt_with p nonce s key ≡ ok stored
      → decrypt_string p stored key ≡ ok s
  unfolding encrypt_with decrypt_string
  decrypt_string-encrypt_with nonce s key stored twelve utf8 e =
      let (bytes, e₁, keyed) = passed (hex_decode (p.as_bytes key)) _ e in
      let (cipher, e₂, ready) =
        passed (or_internal "Invalid encryption key: " (p.new_from_slice bytes)) _ e₁ in
      let (sealed, e₃, sealing) =
        passed (or_internal "Encryption failed: " (p.seal cipher nonce (p.as_bytes s))) _ e₂ in
      let same : p.base64_encode (append nonce sealed) ≡ stored = cc in
      let decoded : p.base64_decode stored ≡ inr (append nonce sealed) =
        rw (← same) (faithful.decode-encode _) in
      rw (keyed, ready, decoded)
        (open_sealed cipher nonce sealed s twelve utf8
          (or_internal-eq-ok "Encryption failed: " _ sealing))
