-- ===== src/Text.antt =====
-- What the program uses of Rust's `str`: `trim`, the code points of a text, decimal numbers.
pub mod Laws
use Prim.Native.Char.{Char, code}
use Prim.Native.String.{◌++◌}
use dbsaa_s.Prelude.{
  ℕ, zero, suc, ◌/◌, ◌%◌, Bool, true, false, Option, none, some, String, List, [], ◌∷◌, leb, ltb,
  ◌==◌, ◌&&◌, ◌||◌, if◌then◌else◌,
}
use dbsaa_s.Prelude.Int.{ℤ, pos, negsuc}

abbrev pub codes : String → List ℕ
codes String.[] = []
codes (String.◌∷◌ c s) = code c ∷ codes s

-- The property White_Space of Unicode, as `char::is_whitespace` has it.
unfoldable pub is_whitespace : ℕ → Bool
is_whitespace c =
    (leb 0x9 c && leb c 0xd)
    || (c == 0x20
        || (c == 0x85
            || (c == 0xa0
                || (c == 0x1680
                    || ((leb 0x2000 c && leb c 0x200a)
                        || (c == 0x2028
                            || (c == 0x2029 || (c == 0x202f || (c == 0x205f || c == 0x3000)))))))))

trim_start : String → String
trim_start String.[] = String.[]
trim_start (String.◌∷◌ c s) =
    let rest = trim_start s in if is_whitespace (code c) then rest else String.◌∷◌ c s

-- The text `c ∷ s` with the white space at its end dropped, if that of `s` has been.
keep_head : Char → String → String
keep_head c String.[] = if is_whitespace (code c) then String.[] else String.◌∷◌ c String.[]
keep_head c s = String.◌∷◌ c s

trim_end : String → String
trim_end String.[] = String.[]
trim_end (String.◌∷◌ c s) = keep_head c (trim_end s)

unfoldable pub trim : String → String
unfolding trim_start trim_end keep_head is_whitespace
trim s = trim_end (trim_start s)

digit : ℕ → String
digit d =
    if d == 0
    then "0"
    else if d == 1
    then "1"
    else if d == 2
    then "2"
    else if d == 3
    then "3"
    else if d == 4
    then "4"
    else if d == 5
    then "5"
    else if d == 6
    then "6"
    else if d == 7
    then "7"
    else if d == 8
    then "8"
    else "9"

-- Decimal digits; a number is below its own fuel here, and it falls at each division.
show_fuel : ℕ → ℕ → String
show_fuel zero n = digit n
show_fuel (suc f) n =
    let rest = show_fuel f (n / 10) in if ltb n 10 then digit n else rest ++ digit (n % 10)

-- `{}` of an `i32`.
unfoldable pub show_i32 : ℤ → String
unfolding show_fuel digit
show_i32 (pos n) = show_fuel n n
show_i32 (negsuc n) = "-" ++ show_fuel (suc n) (suc n)

-- `format!`, of the texts that it puts in a row.
abbrev pub concat : List String → String
concat [] = ""
concat (s ∷ parts) = s ++ concat parts

-- `.starts_with(prefix)`
abbrev pub starts_with : String → String → Bool
starts_with s String.[] = true
starts_with String.[] (String.◌∷◌ d t) = false
starts_with (String.◌∷◌ c s) (String.◌∷◌ d t) =
    let rest = starts_with s t in code c == code d && rest

-- The text from the first place on where `t` stands, if there is one.
abbrev pub find_from : String → String → Option String
find_from String.[] t = if starts_with String.[] t then some String.[] else none
find_from (String.◌∷◌ c s) t =
    let later = find_from s t in
    if starts_with (String.◌∷◌ c s) t then some (String.◌∷◌ c s) else later

-- `.contains(t)`
abbrev pub contains : String → String → Bool
contains s t = elim (find_from s t) [ none ↦ false | some rest ↦ true ]

-- The text before the first `sep`: `.split(sep).next()`.
abbrev pub before : ℕ → String → String
before sep String.[] = String.[]
before sep (String.◌∷◌ c s) =
    let rest = before sep s in if code c == sep then String.[] else String.◌∷◌ c rest

-- `.replace(c, new)`
unfoldable pub replace : ℕ → String → String → String
replace c new String.[] = String.[]
replace c new (String.◌∷◌ d s) =
    let rest = replace c new s in if code d == c then new ++ rest else String.◌∷◌ d rest
