-- ===== src/Subdomain/Bounds.antt =====
-- How long a subdomain can be: api/src/utils/subdomain.rs.
use Prim.Native.Char.{Char, len_utf8}
use Prim.Native.String.{String, ◌++◌, len, slice, fits}
use Prim.Native.String.slice
use Prim.Native.String.len
use Prim.Native.Nat.{compare, Ordering}
use text.Mathlib.TextPositions.{len-append}
use dbsaa_s.Prelude.{
  ℕ, ◌-◌, ◌≤◌, ◌≡◌, refl, sym, arith, subst, Bool, Bool-cases, true, false, inl, inr, ltb, leb→le,
  if◌then◌else◌,
}
use dbsaa_s.Subdomain.{generate_subdomain, join, non_empty, split, hyphenate, remove_hyphens}

abbrev is_room : Ordering → Bool
is_room Ordering.gt = false
is_room _ = true

fits_case :
    (o : Ordering) (c : Char) (rest : String) (b : ℕ)
    → (is_room o ≡ true → len_utf8 c ≤ b)
    → len rest ≤ b - len_utf8 c
    → len (fits o c rest) ≤ b
fits_case Ordering.lt c rest b room h = omega (arith, room refl, len.cons c rest)
fits_case Ordering.eq c rest b room h = omega (arith, room refl, len.cons c rest)
fits_case Ordering.gt c rest b room h = omega (arith, len.nil)

len-slice_le : (s : String) (b : ℕ) → len (slice s 0 b) ≤ b
len-slice_le String.[] b =
    subst (λ x. len x ≤ b) (sym (slice.nil 0 b)) (subst (λ n. n ≤ b) (sym len.nil) (omega arith))
len-slice_le (String.◌∷◌ c s) b =
    subst (λ x. len x ≤ b) (sym (slice.cons-zero c s b))
      (fits_case (compare (len_utf8 c) b) c (slice s 0 (b - len_utf8 c)) b (leb→le (len_utf8 c) b)
        (len-slice_le s (b - len_utf8 c)))

at_most_48 : (s : String) → len (if ltb 48 (len s) then slice s 0 48 else s) ≤ 48
at_most_48 s = elim (Bool-cases (ltb 48 (len s))) [
  | inl long ↦ rw long (len-slice_le s 48)
  | inr short ↦ rw short (ground arith)
]

module _ (to_lowercase : String → String) (name id : String) where
  -- A subdomain takes at most 60 bytes, whatever the name and the UUID are.
  pub generate_subdomain_le : len (generate_subdomain to_lowercase name id) ≤ 60
  unfolding generate_subdomain
  generate_subdomain_le =
      let parts : String = join "-" (non_empty (split b'-' (hyphenate (to_lowercase name)))) in
      let short : len (if ltb 48 (len parts) then slice parts 0 48 else parts) ≤ 48 =
        at_most_48 parts in
      let hex : String = slice (remove_hyphens id) 0 8 in
      omega (
        arith,
        len-append (if ltb 48 (len parts) then slice parts 0 48 else parts) ("-" ++ (hex ++ ".db")),
        len-append "-" (hex ++ ".db"),
        len-append hex ".db",
        len-slice_le (remove_hyphens id) 8,
      )
