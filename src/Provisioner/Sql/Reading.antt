-- ===== src/Provisioner/Sql/Reading.antt =====
-- How PostgreSQL reads the statements of api/src/services/provisioner.rs (lines 738 to 797).
use Prim.Native.Char.{code}
use dbsaa_s.Prelude.{
  ℕ, ◌≡◌, refl, ◌∙◌, ap, Bool, true, false, String, List, [], ◌∷◌, ◌++◌, map, ◌==◌, ==-self, ◌&&◌,
  sym, arith, if◌then◌else◌, inl, inr, Bool-cases,
}
use mathlib.Core.List.{append-nil}
use dbsaa_s.Text.{codes, replace}
use dbsaa_s.Text.Laws.{codes-append}

-- What a lexer sees of a statement: a character outside the quotes, the start of a quoted text, a
-- character of it, and its end.
pub data Piece : Type 0 where
  outside opened inside : ℕ → Piece
  closed : Piece

pub data Mode : Type 0 where
  bare : Mode
  -- within quotes `q`, and after a `q` within them
  quoted ending : ℕ → Mode

is_quote : ℕ → Bool
is_quote c = if c == b'"' then true else c == b'\''

-- The rules of PostgreSQL for quoted identifiers and (with `standard_conforming_strings`) for literals:
-- a doubled quote stands for itself, a single one ends the text.
unfoldable pub read : Mode → List ℕ → List Piece
unfolding is_quote
read bare [] = []
read bare (c ∷ s) =
    let rest = read bare s in
    let within = read (quoted c) s in if is_quote c then opened c ∷ within else outside c ∷ rest
read (quoted q) [] = []
read (quoted q) (c ∷ s) =
    let rest = read (quoted q) s in
    let end = read (ending q) s in if c == q then end else inside c ∷ rest
read (ending q) [] = closed ∷ []
read (ending q) (c ∷ s) =
    let again = read (quoted q) s in
    let rest = read bare s in
    let within = read (quoted c) s in
    if c == q
    then inside c ∷ again
    else if is_quote c
    then closed ∷ opened c ∷ within
    else closed ∷ outside c ∷ rest

-- Within quotes `q`, the text with its quotes doubled is read as the text.
read-escaped :
    (q : ℕ) (twice s : String) (rest : List ℕ)
    → codes twice ≡ q ∷ q ∷ []
    → read (quoted q) (codes (replace q twice s) ++ rest)
      ≡ map inside (codes s) ++ read (quoted q) rest
unfolding replace read
read-escaped q twice String.[] rest e = refl
read-escaped q twice (String.◌∷◌ c s) rest e = elim (Bool-cases (code c == q)) [
  | inl same ↦ rw same (
      ap (λ l. read (quoted q) (l ++ rest))
        (codes-append twice (replace q twice s) ∙ ap (λ l. l ++ codes (replace q twice s)) e)
      ∙ ground (arith, read-escaped q twice s rest e))
  | inr other ↦ rw other (ground (arith, read-escaped q twice s rest e))
]

pub data Quote : Type 0 where
  single double : Quote

mark : Quote → ℕ
mark Quote.single = b'\''
mark Quote.double = b'"'

twice : Quote → String
twice Quote.single = "''"
twice Quote.double = "\"\""

-- A statement with places for values: a text, and after each text but the last a value in quotes.
pub data Template : Type 0 where
  finish : String → Template
  hole : String → Quote → String → Template → Template

-- The characters of the statement, its values escaped.
unfoldable pub flat : Template → List ℕ
unfolding mark twice
flat (finish t) = codes t
flat (hole t q v rest) =
    codes t ++ (mark q ∷ (codes (replace (mark q) (twice q) v) ++ (mark q ∷ flat rest)))

-- What is meant: the values are read as they are.
unfoldable pub pieces : Template → List Piece
unfolding mark
pieces (finish t) = map outside (codes t)
pieces (hole t q v rest) =
    map outside (codes t) ++ (opened (mark q) ∷ (map inside (codes v) ++ (closed ∷ pieces rest)))

no_quotes : List ℕ → Bool
unfolding is_quote
no_quotes [] = true
no_quotes (c ∷ s) = let rest = no_quotes s in if is_quote c then false else rest

starts : Template → Bool
starts (finish t) = true
starts (hole String.[] q v rest) = false
starts (hole (String.◌∷◌ c t) q v rest) = true

-- The texts have no quotes, and there is one between two values.
unfoldable pub is_plain : Template → Bool
unfolding no_quotes starts
is_plain (finish t) = no_quotes (codes t)
is_plain (hole t q v rest) = no_quotes (codes t) && (starts rest && is_plain rest)

read-no_quotes :
    (t s : List ℕ) → no_quotes t ≡ true → read bare (t ++ s) ≡ map outside t ++ read bare s
unfolding read no_quotes
read-no_quotes [] s h = refl
read-no_quotes (c ∷ t) s h = ground (arith, read-no_quotes t s)

read-end :
    (q : Quote) (c : ℕ) (s : List ℕ)
    → is_quote c ≡ false
    → read (ending (mark q)) (c ∷ s) ≡ closed ∷ read bare (c ∷ s)
unfolding read mark is_quote
read-end Quote.single c s h = ground arith
read-end Quote.double c s h = ground arith

head_plain : (c : ℕ) (s : List ℕ) → no_quotes (c ∷ s) ≡ true → is_quote c ≡ false
unfolding no_quotes
head_plain c s h = ground arith

and_true : (a b : Bool) → (a && b) ≡ true → (a ≡ true) × (b ≡ true)
and_true true b h = (refl, h)
and_true false b h = cc

read-after :
    (q : Quote) (rest : Template)
    → starts rest ≡ true
    → is_plain rest ≡ true
    → read (ending (mark q)) (flat rest) ≡ closed ∷ read bare (flat rest)
unfolding starts flat is_plain
read-after q (finish String.[]) s h = unfold read in refl
read-after q (finish (String.◌∷◌ c t)) s h = read-end q (code c) _ (head_plain (code c) (codes t) h)
read-after q (hole String.[] r v rest) s h = cc
read-after q (hole (String.◌∷◌ c t) r v rest) s h =
    read-end q (code c) _ (head_plain (code c) (codes t) (and_true _ _ h).0)

codes-twice : (q : Quote) → codes (twice q) ≡ mark q ∷ mark q ∷ []
unfolding twice mark
codes-twice Quote.single = refl
codes-twice Quote.double = refl

-- The quote that ends a value.
read-close : (q : ℕ) (s : List ℕ) → read (quoted q) (q ∷ s) ≡ read (ending q) s
unfolding read
read-close q s = rw (==-self q)

read-open :
    (q : Quote) (s : List ℕ) → read bare (mark q ∷ s) ≡ opened (mark q) ∷ read (quoted (mark q)) s
unfolding read mark is_quote
read-open Quote.single s = refl
read-open Quote.double s = refl

pub read-flat : (t : Template) → is_plain t ≡ true → read bare (flat t) ≡ pieces t
unfolding flat pieces is_plain
read-flat (finish t) h =
    ap (read bare) (sym (append-nil (codes t)))
    ∙ (read-no_quotes (codes t) [] h ∙ unfold read in append-nil _)
read-flat (hole t q v rest) h =
    let (plain, more) = and_true _ _ h in
    let (starting, after) = and_true _ _ more in
    read-no_quotes (codes t) _ plain
    ∙ ap (λ l. map outside (codes t) ++ l)
        (read-open q _
          ∙ ap (λ l. opened (mark q) ∷ l)
              (read-escaped (mark q) (twice q) v _ (codes-twice q)
                ∙ ap (λ l. map inside (codes v) ++ l)
                    (read-close (mark q) (flat rest)
                      ∙ (read-after q rest starting after
                          ∙ ap (λ l. closed ∷ l) (read-flat rest after)))))

-- PostgreSQL reads the statement as the template says.
abbrev pub ReadsAs : String → Template → Type 0
ReadsAs sql t = read bare (codes sql) ≡ pieces t
