-- ===== src/Tests/CryptoExamples.antt =====
-- An example for passwords at rest.
use Prim.Native.String.{◌++◌}
use dbsaa_s.Prelude.{ℕ, zero, suc, ◌+◌, ◌≡◌, refl, sym, arith, ap, List, [], ◌∷◌, String, inr}
use dbsaa_s.Errors.{ok}
use dbsaa_s.Crypto.{decrypt_string, encrypt_with, hex_bytes, hex_decode}
use dbsaa_s.Crypto.Laws.{IsFaithful, decrypt_string-encrypt_with}
use dbsaa_s.Tests.Fixtures.{plain, spell, unspell, tally, replicate}

unspell-tally :
    (n k m : ℕ) (rest : String) → m ≡ k + n → unspell k (tally n rest) ≡ m ∷ unspell 0 rest
unspell-tally zero k m rest e = ap (λ x. x ∷ unspell 0 rest) (omega arith)
unspell-tally (suc n) k m rest e = unspell-tally n (suc k) m rest (omega arith)

unspell-spell : (ns : List ℕ) → unspell 0 (spell ns) ≡ ns
unspell-spell [] = refl
unspell-spell (n ∷ ns) = rw (unspell-tally n 0 n (spell ns) (omega arith), unspell-spell ns) refl

pub plain-IsFaithful : IsFaithful plain
plain-IsFaithful = record {
  unseal-seal = λ key nonce text sealed h. sym h;
  decode-encode = λ bytes. ap inr (unspell-spell bytes);
}

abbrev key : String
key = "00112233445566778899aabbccddeeff00112233445566778899AABBCCDDEEFF"

encrypted :
    encrypt_with plain (replicate 12 0) "secret" key
    ≡ ok (spell (replicate 12 0) ++ spell (115 ∷ 101 ∷ 99 ∷ 114 ∷ 101 ∷ 116 ∷ []))
unfolding encrypt_with hex_decode hex_bytes
encrypted = refl

decrypt_string-encrypt_with_example :
    decrypt_string plain
      (spell (replicate 12 0) ++ spell (115 ∷ 101 ∷ 99 ∷ 114 ∷ 101 ∷ 116 ∷ []))
      key
    ≡ ok "secret"
decrypt_string-encrypt_with_example =
    decrypt_string-encrypt_with plain plain-IsFaithful (replicate 12 0) "secret" key _ refl refl
      encrypted
