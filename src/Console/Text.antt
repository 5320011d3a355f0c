-- ===== src/Console/Text.antt =====
-- What the pages of auth/frontend/src/pages use of JavaScript's strings: `trim`, `split` on a
-- separator of one character, and the text of a number.
use Prim.Native.Char.{Char, code}
use Prim.Native.String.{◌++◌ as str_append}
use vectron.Prelude.{
  ℕ, zero, suc, ◌/◌, ◌%◌, ltb, ℤ, pos, negsuc, String, Bool, List, [], ◌∷◌, leb, ◌==◌, ◌||◌, ◌&&◌,
  is_empty_str, if◌then◌else◌,
}

-- White space and line terminators.
abbrev pub is_white_code : ℕ → Bool
is_white_code n =
    (leb 9 n && leb n 13)
    || n == 32
    || n == 160
    || n == 5760
    || (leb 8192 n && leb n 8202)
    || n == 8232
    || n == 8233
    || n == 8239
    || n == 8287
    || n == 12288
    || n == 65279

unfoldable pub is_white : Char → Bool
is_white c = is_white_code (code c)

unfoldable pub trim_start : String → String
trim_start String.[] = String.[]
trim_start (String.◌∷◌ c s) = let rest = trim_start s in if is_white c then rest else String.◌∷◌ c s

unfoldable pub trim_end : String → String
trim_end String.[] = String.[]
trim_end (String.◌∷◌ c s) =
    let rest = trim_end s in
    if is_white c && is_empty_str rest then String.[] else String.◌∷◌ c rest

unfoldable pub trim : String → String
unfolding trim_start trim_end
trim s = trim_end (trim_start s)

-- A character is put before the first of the texts.
abbrev pub prepend : Char → List String → List String
prepend c [] = String.◌∷◌ c String.[] ∷ []
prepend c (s ∷ ss) = String.◌∷◌ c s ∷ ss

-- `s.split(separator)`, the separator by its code.
unfoldable pub split : ℕ → String → List String
split separator String.[] = String.[] ∷ []
split separator (String.◌∷◌ c s) =
    let rest = split separator s in if code c == separator then String.[] ∷ rest else prepend c rest

abbrev pub digit_text : ℕ → String
digit_text n =
    if n == 0
    then "0"
    else if n == 1
    then "1"
    else if n == 2
    then "2"
    else if n == 3
    then "3"
    else if n == 4
    then "4"
    else if n == 5
    then "5"
    else if n == 6
    then "6"
    else if n == 7
    then "7"
    else if n == 8
    then "8"
    else "9"

-- The fuel bounds the number of digits.
unfoldable pub decimal : ℕ → ℕ → String
decimal zero n = digit_text n
decimal (suc fuel) n =
    let rest = decimal fuel (n / 10) in
    if ltb n 10 then digit_text n else str_append rest (digit_text (n % 10))

-- `${n}`: a number below 10 ^ 16 has sixteen digits at most.
unfoldable pub number_text : ℤ → String
unfolding decimal
number_text (pos n) = decimal 16 n
number_text (negsuc n) = str_append "-" (decimal 16 (suc n))
