-- ===== src/Text/Laws.antt =====
-- The code points of texts that are put together.
use Prim.Native.Char.{code}
use Prim.Native.String.{◌++◌ as glue}
use text.Mathlib.TextLemmas.{nil-append, cons-append}
use dbsaa_s.Prelude.{ℕ, ◌≡◌, refl, ◌∙◌, ap, String, List, [], ◌∷◌, ◌++◌}
use dbsaa_s.Text.{codes, concat}

pub codes-append : (s t : String) → codes (glue s t) ≡ codes s ++ codes t
codes-append String.[] t = ap codes (nil-append t)
codes-append (String.◌∷◌ c s) t =
    ap codes (cons-append c s t) ∙ ap (λ l. code c ∷ l) (codes-append s t)

-- The code points of the texts in a row.
abbrev pub codes_of : List String → List ℕ
codes_of [] = []
codes_of (s ∷ parts) = codes s ++ codes_of parts

pub codes-concat : (parts : List String) → codes (concat parts) ≡ codes_of parts
codes-concat [] = refl
codes-concat (s ∷ parts) =
    codes-append s (concat parts) ∙ ap (λ l. codes s ++ l) (codes-concat parts)
