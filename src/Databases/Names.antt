-- ===== src/Databases/Names.antt =====
-- The rule for the name of a user inside a database: api/src/models/database.rs (lines 126 to 134).
use Prim.Native.Char.{code}
use Prim.Native.String.{len}
use dbsaa_s.Text.{codes}
use dbsaa_s.Subdomain.{is_ascii_alphanumeric}
use dbsaa_s.Databases.Addresses.{all_chars}
use dbsaa_s.Prelude.{
  ℕ, ◌≤◌, ◌≢◌, ◌==◌, ◌||◌, ◌&&◌, All, leb, ltb, arith, eq_iff, Bool-cases, str_eq, and-left,
  and-right, or-false, not-true, ◌≡◌, sym, ◌∙◌, true, false, not, String, inl, inr, Bool,
}
use dbsaa_s.Databases.Users.{validate_username}

-- A letter of ASCII, a digit or the underscore, by its code point.
pub data IsWordCode (c : ℕ) : Type 0 where
  digit : 48 ≤ c → c ≤ 57 → IsWordCode c
  upper : 65 ≤ c → c ≤ 90 → IsWordCode c
  lower : 97 ≤ c → c ≤ 122 → IsWordCode c
  underscore : c ≡ 95 → IsWordCode c

-- At least one and at most 63 bytes, each of them a letter, a digit or an underscore.
pub record IsName (username : String) : Type 0 where
  pub not_empty : username ≢ ""
  pub short : len username ≤ 63
  pub of_words : All IsWordCode (codes username)

IsWordCode-of : (c : ℕ) → (is_ascii_alphanumeric c || c == b'_') ≡ true → IsWordCode c
IsWordCode-of c h = elim (Bool-cases (leb 48 c && leb c 57)) [
  | inl d ↦ IsWordCode.digit (ground arith) (ground arith)
  | inr d ↦ elim (Bool-cases (leb 65 c && leb c 90)) [
    | inl u ↦ IsWordCode.upper (ground arith) (ground arith)
    | inr u ↦ elim (Bool-cases (leb 97 c && leb c 122)) [
      | inl l ↦ IsWordCode.lower (ground arith) (ground arith)
      | inr l ↦ IsWordCode.underscore (ground arith)
    ]
  ]
]

All-all_chars :
    (P : ℕ → Type 0) (p : ℕ → Bool)
    → ((c : ℕ) → p c ≡ true → P c)
    → (s : String) → all_chars p s ≡ true
    → All P (codes s)
All-all_chars P p imp String.[] h = tt
All-all_chars P p imp (String.◌∷◌ c s) h =
    (imp (code c) (and-left _ _ h), All-all_chars P p imp s (and-right _ _ h))

pub validate_username-IsName :
    (username : String) → validate_username username ≡ true → IsName username
unfolding validate_username
validate_username-IsName username h =
    let (filled, size) : (str_eq username "" ≡ false) × (ltb 63 (len username) ≡ false) =
      or-false (str_eq username "") (ltb 63 (len username))
        (not-true _ (and-left (not (str_eq username "" || ltb 63 (len username))) _ h)) in
    record {
      not_empty = λ e. let bad : true ≡ false = sym ((eq_iff username "").1 e) ∙ filled in cc;
      short = ground arith;
      of_words = All-all_chars IsWordCode _ IsWordCode-of username (and-right _ _ h);
    }
