-- ===== src/Subdomain.antt =====
-- Names in the DNS: api/src/utils/subdomain.rs.
pub mod Bounds
use Prim.Native.Char.{Char, code}
use Prim.Native.String.{◌++◌, len, slice}
use dbsaa_s.Text.{concat}
use dbsaa_s.Prelude.{ℕ, Bool, List, [], ◌∷◌, String, ltb, leb, ◌==◌, ◌&&◌, ◌||◌, if◌then◌else◌}

abbrev pub is_ascii_alphabetic : ℕ → Bool
is_ascii_alphabetic c = (leb b'a' c && leb c b'z') || (leb b'A' c && leb c b'Z')

abbrev pub is_ascii_alphanumeric : ℕ → Bool
is_ascii_alphanumeric c = is_ascii_alphabetic c || (leb b'0' c && leb c b'9')

-- `.map(|c| if … { c } else { '-' })`
abbrev pub hyphenate : String → String
hyphenate String.[] = String.[]
hyphenate (String.◌∷◌ c s) =
    String.◌∷◌ (if is_ascii_alphanumeric (code c) || code c == b'-' then c else "-") (hyphenate s)

-- The text before a separator is `head`; a list of the texts between separators is never empty.
abbrev grow : Char → List String → List String
grow c [] = String.◌∷◌ c String.[] ∷ []
grow c (head ∷ rest) = String.◌∷◌ c head ∷ rest

-- `.split(sep)`
abbrev pub split : ℕ → String → List String
split sep String.[] = String.[] ∷ []
split sep (String.◌∷◌ c s) =
    let rest = split sep s in if code c == sep then String.[] ∷ rest else grow c rest

-- `.filter(|s| !s.is_empty())`
abbrev pub non_empty : List String → List String
non_empty [] = []
non_empty (String.[] ∷ parts) = non_empty parts
non_empty (String.◌∷◌ c s ∷ parts) = String.◌∷◌ c s ∷ non_empty parts

-- `.join("-")`
abbrev pub join : String → List String → String
join sep [] = ""
join sep (s ∷ []) = s
join sep (s ∷ t ∷ parts) = s ++ (sep ++ join sep (t ∷ parts))

-- `.replace('-', "")`
abbrev pub remove_hyphens : String → String
remove_hyphens s = concat (split b'-' s)

-- `id` is the UUID as it is written; `to_lowercase` is Unicode's.
unfoldable pub generate_subdomain : (String → String) → String → String → String
generate_subdomain to_lowercase name id =
    let sanitized = join "-" (non_empty (split b'-' (hyphenate (to_lowercase name)))) in
    let truncated = if ltb 48 (len sanitized) then slice sanitized 0 48 else sanitized in
    truncated ++ ("-" ++ (slice (remove_hyphens id) 0 8 ++ ".db"))

unfoldable pub subdomain_fqdn : String → String → String
subdomain_fqdn subdomain platform_domain = subdomain ++ ("." ++ platform_domain)
