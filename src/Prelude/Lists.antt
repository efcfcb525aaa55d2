-- ===== src/Prelude/Lists.antt =====
-- Lists measured by native numbers, and the queries that the SQL statements make of a table.
use Prim.Native.Nat.{ℕ, suc, ◌+◌, ◌≤◌}
use mathlib.Core.Path.{◌≡◌, refl, subst}
use mathlib.Core.Bool.{Bool, true, false}
use mathlib.Core.List.{List, [], ◌∷◌, ◌++◌}
use mathlib.Core.Option.{Option, none, some}
use native.Mathlib.Omega.{arith}
use mathlib.Core.Logic.{inl, inr}
use dbsaa_s.Prelude.Tests.{if◌then◌else◌, Bool-cases}

module _ {ℓ} {A : Type ℓ} where
  abbrev pub length : List A → ℕ
  length [] = 0
  length (x ∷ xs) = suc (length xs)

  -- `SELECT … WHERE p`
  abbrev pub select : (A → Bool) → List A → List A
  select p [] = []
  select p (x ∷ xs) = let rest = select p xs in if p x then x ∷ rest else rest

  -- `SELECT COUNT(*) … WHERE p`
  abbrev pub count : (A → Bool) → List A → ℕ
  count p [] = 0
  count p (x ∷ xs) = let rest = count p xs in if p x then suc rest else rest

  -- `SELECT … WHERE p`, at most one row
  abbrev pub find : (A → Bool) → List A → Option A
  find p [] = none
  find p (x ∷ xs) = let rest = find p xs in if p x then some x else rest

  -- `UPDATE … SET f WHERE p`
  abbrev pub update : (A → Bool) → (A → A) → List A → List A
  update p f [] = []
  update p f (x ∷ xs) = (if p x then f x else x) ∷ update p f xs

  -- `DELETE … WHERE p`
  abbrev pub delete : (A → Bool) → List A → List A
  delete p [] = []
  delete p (x ∷ xs) = let rest = delete p xs in if p x then rest else x ∷ rest

  abbrev pub any : (A → Bool) → List A → Bool
  any p [] = false
  any p (x ∷ xs) = let rest = any p xs in if p x then true else rest

  -- `ORDER BY`: insertion sort, which keeps the order of equal rows.
  abbrev pub insert_by : (A → A → Bool) → A → List A → List A
  insert_by le x [] = x ∷ []
  insert_by le x (y ∷ ys) = let rest = insert_by le x ys in if le x y then x ∷ y ∷ ys else y ∷ rest

  abbrev pub sort_by : (A → A → Bool) → List A → List A
  sort_by le [] = []
  sort_by le (x ∷ xs) = insert_by le x (sort_by le xs)

  abbrev pub All {κ} : (A → Type κ) → List A → Type κ
  All P [] = Unit
  All P (x ∷ xs) = P x × All P xs

module _ {ℓ} {A : Type ℓ} where
  pub length-append : (xs ys : List A) → length (xs ++ ys) ≡ length xs + length ys
  length-append [] ys = omega arith
  length-append (x ∷ xs) ys = omega (arith, length-append xs ys)

  pub count-append : (p : A → Bool) (xs ys : List A) → count p (xs ++ ys) ≡ count p xs + count p ys
  count-append p [] ys = omega arith
  count-append p (x ∷ xs) ys = ground (arith, count-append p xs ys)

  pub count-delete-le : (p q : A → Bool) (xs : List A) → count p (delete q xs) ≤ count p xs
  count-delete-le p q [] = omega arith
  count-delete-le p q (x ∷ xs) = ground (arith, count-delete-le p q xs)

  pub count-update :
      (p q : A → Bool) (f : A → A)
      → ((x : A) → p (f x) ≡ p x)
      → (xs : List A) → count p (update q f xs) ≡ count p xs
  count-update p q f same [] = refl
  count-update p q f same (x ∷ xs) = ground (arith, same x, count-update p q f same xs)

  pub any-append :
      (p : A → Bool) (xs ys : List A) → any p (xs ++ ys) ≡ (if any p xs then true else any p ys)
  any-append p [] ys = refl
  any-append p (x ∷ xs) ys = ground (arith, any-append p xs ys)

  pub find-some : (p : A → Bool) (xs : List A) {a : A} → find p xs ≡ some a → p a ≡ true
  find-some p [] h = cc
  find-some p (x ∷ xs) {a} h = ground (arith, find-some p xs {a = a})

  pub All-append {κ} : (P : A → Type κ) (xs ys : List A) → All P xs → All P ys → All P (xs ++ ys)
  All-append P [] ys h k = k
  All-append P (x ∷ xs) ys h k = (h.0, All-append P xs ys h.1 k)

  pub All-delete {κ} :
      (P : A → Type κ) (q : A → Bool) (xs : List A) → All P xs → All P (delete q xs)
  All-delete P q [] h = h
  All-delete P q (x ∷ xs) h = elim (Bool-cases (q x)) [
    | inl e ↦ rw e (All-delete P q xs h.1)
    | inr e ↦ rw e (h.0, All-delete P q xs h.1)
  ]

  pub All-find {κ} :
      (P : A → Type κ) (p : A → Bool) (xs : List A) {a : A} → All P xs → find p xs ≡ some a → P a
  All-find P p [] h e = cc
  All-find P p (x ∷ xs) {a} h e = elim (Bool-cases (p x)) [
    | inl t ↦ subst P (ground arith) h.0
    | inr t ↦ All-find P p xs h.1 (ground arith)
  ]

-- What a query reads of the first row that it meets.
module _ {ℓ κ} {A : Type ℓ} {B : Type κ} where
  abbrev pub look : (A → Bool) → (A → B) → List A → Option B
  look p f [] = none
  look p f (x ∷ xs) = let rest = look p f xs in if p x then some (f x) else rest

  pub look-find :
      (p : A → Bool) (f : A → B) (xs : List A) (a : A)
      → find p xs ≡ some a
      → look p f xs ≡ some (f a)
  look-find p f [] a h = cc
  look-find p f (x ∷ xs) a h = ground (arith, look-find p f xs a)

  pub look-append :
      (p : A → Bool) (f : A → B) (xs ys : List A) (b : B)
      → look p f xs ≡ some b
      → look p f (xs ++ ys) ≡ some b
  look-append p f [] ys b h = cc
  look-append p f (x ∷ xs) ys b h = ground (arith, look-append p f xs ys b)

  pub look-update :
      (p q : A → Bool) (f : A → B) (g : A → A)
      → ((x : A) → p (g x) ≡ p x)
      → ((x : A) → f (g x) ≡ f x)
      → (xs : List A) → look p f (update q g xs) ≡ look p f xs
  look-update p q f g same keep [] = refl
  look-update p q f g same keep (x ∷ xs) =
      ground (arith, same x, keep x, look-update p q f g same keep xs)

  pub look-delete :
      (p q : A → Bool) (f : A → B) (xs : List A)
      → any p (select q xs) ≡ false
      → look p f (delete q xs) ≡ look p f xs
  look-delete p q f [] h = refl
  look-delete p q f (x ∷ xs) h = ground (arith, look-delete p q f xs)

module _ {ℓ} {A : Type ℓ} where
  pub All-any : (p : A → Bool) (xs : List A) → any p xs ≡ false → All (λ x. p x ≡ false) xs
  All-any p [] h = tt
  All-any p (x ∷ xs) h = elim (Bool-cases (p x)) [
    | inl e ↦ let bad : true ≡ false = rw e at h in cc
    | inr e ↦ (e, All-any p xs (rw e at h))
  ]

  pub any-select_of_disjoint :
      (p q : A → Bool)
      → ((x : A) → p x ≡ true → q x ≡ false)
      → (xs : List A) → any p (select q xs) ≡ false
  any-select_of_disjoint p q apart [] = refl
  any-select_of_disjoint p q apart (x ∷ xs) =
      ground (arith, apart x, any-select_of_disjoint p q apart xs)

  pub All-map {κ μ} :
      (P : A → Type κ) (Q : A → Type μ)
      → ((x : A) → P x → Q x)
      → (xs : List A) → All P xs
      → All Q xs
  All-map P Q imp [] h = tt
  All-map P Q imp (x ∷ xs) h = (imp x h.0, All-map P Q imp xs h.1)

  pub All-update {κ} :
      (P : A → Type κ) (q : A → Bool) (g : A → A)
      → ((x : A) → P x → P (g x))
      → (xs : List A) → All P xs
      → All P (update q g xs)
  All-update P q g imp [] h = h
  All-update P q g imp (x ∷ xs) h = elim (Bool-cases (q x)) [
    | inl e ↦ rw e (imp x h.0, All-update P q g imp xs h.1)
    | inr e ↦ rw e (h.0, All-update P q g imp xs h.1)
  ]

  -- A row that stays may use that it was not chosen.
  pub All-delete_map {κ μ} :
      (P : A → Type κ) (Q : A → Type μ) (q : A → Bool)
      → ((x : A) → q x ≡ false → P x → Q x)
      → (xs : List A) → All P xs
      → All Q (delete q xs)
  All-delete_map P Q q imp [] h = tt
  All-delete_map P Q q imp (x ∷ xs) h = elim (Bool-cases (q x)) [
    | inl e ↦ rw e (All-delete_map P Q q imp xs h.1)
    | inr e ↦ rw e (imp x e h.0, All-delete_map P Q q imp xs h.1)
  ]
