-- ===== src/Console/Vectors/Parsing.antt =====
-- What `parseVectorString` of auth/frontend/src/pages/VectorOperationsPage.tsx makes of numbers that
-- are written one after the other.
use Prim.Native.Char.{code}
use Prim.Native.String.{◌++◌ as str_append}
use Prim.Native.String.append
use vectron.Prelude.{
  String, ◌≡◌, ◌≢◌, refl, ◌∙◌, ap, false, Option, some, List, [], ◌∷◌, map, All, ◌==◌, arith,
  is_empty_str-false,
}
use vectron.Console.Text.{is_white, trim_start, trim_end, trim, split, prepend}
use vectron.Console.Vectors.{numbers_of, nonempty_texts, parse_vector_string}

-- A text without commas and white space.
abbrev pub IsPlain : String → Type 0
IsPlain String.[] = Unit
IsPlain (String.◌∷◌ c s) = (is_white c ≡ false) × ((code c == 44) ≡ false) × IsPlain s

-- The texts with a comma and a blank between them.
abbrev pub joined : String → List String → String
joined s [] = s
joined s (t ∷ ts) = str_append s (str_append ", " (joined t ts))

trim_end-IsPlain : (s : String) → IsPlain s → trim_end s ≡ s
unfolding trim_end
trim_end-IsPlain String.[] h = refl
trim_end-IsPlain (String.◌∷◌ c s) h = ground (arith, h, trim_end-IsPlain s h.2)

trim_start-IsPlain : (s : String) → IsPlain s → trim_start s ≡ s
unfolding trim_start
trim_start-IsPlain String.[] h = refl
trim_start-IsPlain (String.◌∷◌ c s) h = ground (arith, h)

trim-IsPlain : (s : String) → IsPlain s → trim s ≡ s
unfolding trim
trim-IsPlain s h = rw (trim_start-IsPlain s h) (trim_end-IsPlain s h)

append-blank : (s : String) → str_append " " s ≡ String.◌∷◌ " " s
append-blank s = append.cons " " "" s ∙ ap (λ t. String.◌∷◌ " " t) (append.nil s)

append-separator : (s : String) → str_append ", " s ≡ String.◌∷◌ "," (String.◌∷◌ " " s)
append-separator s = append.cons "," " " s ∙ ap (λ t. String.◌∷◌ "," t) (append-blank s)

split-IsPlain : (s : String) → IsPlain s → split 44 s ≡ s ∷ []
unfolding split
split-IsPlain String.[] h = refl
split-IsPlain (String.◌∷◌ c s) h = ground (arith, h, split-IsPlain s h.2)

trim-blank : (s : String) → trim (String.◌∷◌ " " s) ≡ trim s
unfolding trim trim_start is_white
trim-blank s = refl

-- A text behind its separator.
abbrev blank_before : String → String
blank_before s = String.◌∷◌ " " s

split-blank :
    (s : String) (t : String) (ts : List String)
    → split 44 s ≡ t ∷ ts
    → split 44 (blank_before s) ≡ blank_before t ∷ ts
unfolding split
split-blank s t ts e = ap (prepend " ") e

split-append :
    (s rest : String)
    → IsPlain s
    → split 44 (str_append s (String.◌∷◌ "," rest)) ≡ s ∷ split 44 rest
unfolding split
split-append String.[] rest h = rw (append.nil (String.◌∷◌ "," rest)) refl
split-append (String.◌∷◌ c s) rest h =
    rw (append.cons c s (String.◌∷◌ "," rest), split-append s rest h.2) (ground (arith, h))

split-joined :
    (s : String) (ts : List String)
    → IsPlain s
    → All IsPlain ts
    → split 44 (joined s ts) ≡ s ∷ map blank_before ts
split-joined s [] h hs = split-IsPlain s h
split-joined s (t ∷ ts) h (now, later) =
    ap (λ r. split 44 (str_append s r)) (append-separator (joined t ts))
    ∙ split-append s (blank_before (joined t ts)) h
    ∙ ap (λ r. s ∷ r) (split-blank (joined t ts) t _ (split-joined t ts now later))

module _ {F : Type 0} (parse_float : String → Option F) (print : F → String) where
  -- The numbers are printed without commas and white space, and what is printed is parsed again.
  abbrev pub IsPrinted : List F → Type 0
  IsPrinted [] = Unit
  IsPrinted (v ∷ vs) =
      (parse_float (print v) ≡ some v) × (print v ≢ "") × IsPlain (print v) × IsPrinted vs

  All-IsPlain : (vs : List F) → IsPrinted vs → All IsPlain (map print vs)
  All-IsPlain [] h = tt
  All-IsPlain (v ∷ vs) (same, filled, plain, rest) = (plain, All-IsPlain vs rest)

  number_kept :
      (v : F) (texts : List String)
      → parse_float (print v) ≡ some v
      → print v ≢ ""
      → numbers_of parse_float (nonempty_texts (print v ∷ texts))
        ≡ v ∷ numbers_of parse_float (nonempty_texts texts)
  number_kept v texts same filled =
      let kept = is_empty_str-false (print v) filled in rw (kept, same) refl

  numbers_kept :
      (vs : List F)
      → IsPrinted vs
      → numbers_of parse_float (nonempty_texts (map trim (map blank_before (map print vs)))) ≡ vs
  numbers_kept [] h = refl
  numbers_kept (v ∷ vs) (same, filled, plain, rest) =
      rw (trim-blank (print v), trim-IsPlain (print v) plain)
        (number_kept v (map trim (map blank_before (map print vs))) same filled
          ∙ ap (λ us. v ∷ us) (numbers_kept vs rest))

  -- For a way of printing numbers without commas and white space that `parseFloat` reads back,
  -- and a list of one number at least, parsing their texts with a comma and a blank between them
  -- returns the numbers in their order.
  pub parse_vector_string-joined :
      (v : F) (vs : List F)
      → IsPrinted (v ∷ vs)
      → parse_vector_string parse_float (joined (print v) (map print vs)) ≡ v ∷ vs
  unfolding parse_vector_string
  parse_vector_string-joined v vs (same, filled, plain, rest) =
      rw
        (
          split-joined (print v) (map print vs) plain (All-IsPlain vs rest),
          trim-IsPlain (print v) plain,
        )
        (number_kept v (map trim (map blank_before (map print vs))) same filled
          ∙ ap (λ us. v ∷ us) (numbers_kept vs rest))
