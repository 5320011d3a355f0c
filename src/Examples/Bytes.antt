-- ===== src/Examples/Bytes.antt =====
-- A wire format for the tests: one number for each uint32, and texts as the numbers of their
-- characters.
use Prim.Native.Nat.{Ordering, compare}
use Prim.Native.Char.{Char, char, code, nul, IsScalar}
use text.Mathlib.TextEquality.{Char-path}
use vectron.Prelude.{
  pos_part, neg_part, ◌≤◌, ℕ, ◌<◌, ◌≡◌, refl, ap, ◌∙◌, String, Bool, true, false, Option, none,
  some, [], ◌∷◌, ◌++◌, ℤ, pos, negsuc, length, arith, zero, suc, subst,
}
use vectron.Gateway.Wire.{Bytes, Wire, IsSound}

pub char_if :
    (n : ℕ) (a b c : Ordering)
    → compare n 55296 ≡ a
    → compare 57343 n ≡ b
    → compare n 1114112 ≡ c
    → Char
char_if n Ordering.lt b c ha hb hc = char n (rw ha tt)
char_if n Ordering.eq Ordering.lt Ordering.lt ha hb hc = char n (rw (ha, hb, hc) tt)
char_if n Ordering.gt Ordering.lt Ordering.lt ha hb hc = char n (rw (ha, hb, hc) tt)
char_if n _ _ _ ha hb hc = nul

code-char_if :
    (n : ℕ) (a b c : Ordering) (ha : compare n 55296 ≡ a) (hb : compare 57343 n ≡ b)
    (hc : compare n 1114112 ≡ c)
    → IsScalar n
    → code (char_if n a b c ha hb hc) ≡ n
unfolding char_if
code-char_if n Ordering.lt b c ha hb hc h = refl
code-char_if n Ordering.eq Ordering.lt Ordering.lt ha hb hc h = refl
code-char_if n Ordering.eq Ordering.lt Ordering.eq ha hb hc h = absurd (rw (ha, hb, hc) at h)
code-char_if n Ordering.eq Ordering.lt Ordering.gt ha hb hc h = absurd (rw (ha, hb, hc) at h)
code-char_if n Ordering.eq Ordering.eq c ha hb hc h = absurd (rw (ha, hb) at h)
code-char_if n Ordering.eq Ordering.gt c ha hb hc h = absurd (rw (ha, hb) at h)
code-char_if n Ordering.gt Ordering.lt Ordering.lt ha hb hc h = refl
code-char_if n Ordering.gt Ordering.lt Ordering.eq ha hb hc h = absurd (rw (ha, hb, hc) at h)
code-char_if n Ordering.gt Ordering.lt Ordering.gt ha hb hc h = absurd (rw (ha, hb, hc) at h)
code-char_if n Ordering.gt Ordering.eq c ha hb hc h = absurd (rw (ha, hb) at h)
code-char_if n Ordering.gt Ordering.gt c ha hb hc h = absurd (rw (ha, hb) at h)

abbrev char_of : ℕ → Char
char_of n = char_if n (compare n 55296) (compare 57343 n) (compare n 1114112) refl refl refl

char_of-code : (c : Char) → char_of (code c) ≡ c
char_of-code (char n p) = Char-path (char_of n) (char n p) (code-char_if n _ _ _ refl refl refl p)

abbrev put_text : String → Bytes
put_text String.[] = 0 ∷ []
put_text (String.◌∷◌ c s) = 1 ∷ code c ∷ put_text s

abbrev more : ℕ → Option (String × Bytes) → Option (String × Bytes)
more n none = none
more n (some (s, rest)) = some (String.◌∷◌ (char_of n) s, rest)

abbrev take_text : Bytes → Option (String × Bytes)
take_text [] = none
take_text (zero ∷ rest) = some ("", rest)
take_text (suc k ∷ []) = none
take_text (suc k ∷ n ∷ rest) = more n (take_text rest)

take_text-put_text : (s : String) (rest : Bytes) → take_text (put_text s ++ rest) ≡ some (s, rest)
take_text-put_text String.[] rest = refl
take_text-put_text (String.◌∷◌ c s) rest =
    ap (more (code c)) (take_text-put_text s rest)
    ∙ ap (λ d. some (String.◌∷◌ d s, rest)) (char_of-code c)

abbrev put_number : ℤ → Option Bytes
put_number (pos n) = some (n ∷ [])
put_number (negsuc n) = none

abbrev put_signed : ℤ → Option Bytes
put_signed (pos n) = some (0 ∷ n ∷ [])
put_signed (negsuc n) = some (1 ∷ n ∷ [])

abbrev take_number : Bytes → Option (ℕ × Bytes)
take_number [] = none
take_number (n ∷ rest) = some (n, rest)

abbrev take_signed : Bytes → Option (ℤ × Bytes)
take_signed (zero ∷ n ∷ rest) = some (pos n, rest)
take_signed (suc zero ∷ n ∷ rest) = some (negsuc n, rest)
take_signed _ = none

abbrev put_flag : Bool → Bytes
put_flag true = 1 ∷ []
put_flag false = 0 ∷ []

abbrev take_flag : Bytes → Option (Bool × Bytes)
take_flag (zero ∷ rest) = some (false, rest)
take_flag (suc k ∷ rest) = some (true, rest)
take_flag [] = none

abbrev pub wire : Wire ℕ
wire = record {
  put_uint32 = put_number;
  put_int32 = put_signed;
  put_float = λ v. some (v ∷ []);
  to_float32 = λ v. v;
  is_float32 = λ v. true;
  put_uint64 = λ s. some (put_text s);
  to_uint64 = λ s. s;
  is_uint64 = λ s. true;
  put_int64 = λ s. some (put_text s);
  to_int64 = λ s. s;
  is_int64 = λ s. true;
  put_string = put_text;
  put_bool = put_flag;
  take_uint32 = take_number;
  take_int32 = take_signed;
  take_float = take_number;
  take_uint64 = take_text;
  take_int64 = take_text;
  take_string = take_text;
  take_bool = take_flag;
  skip = λ kind bs. none;
}

same_bytes : (xs bs : Bytes) → some xs ≡ some bs → xs ≡ bs
same_bytes xs bs e = ground (arith, e)

number_back :
    (n : ℕ) (bs rest : Bytes) → some (n ∷ []) ≡ some bs → take_number (bs ++ rest) ≡ some (n, rest)
number_back n bs rest e =
    subst (λ zs. take_number (zs ++ rest) ≡ some (n, rest)) (same_bytes (n ∷ []) bs e) refl

number_nonempty : (n : ℕ) (bs : Bytes) → some (n ∷ []) ≡ some bs → 0 < length bs
number_nonempty n bs e = subst (λ zs. 0 < length zs) (same_bytes (n ∷ []) bs e) (omega arith)

uint32_nonempty : (z : ℤ) (bs : Bytes) → put_number z ≡ some bs → 0 < length bs
uint32_nonempty (pos n) bs e = number_nonempty n bs e
uint32_nonempty (negsuc n) bs e = absurd (cc e)

signed_back :
    (z : ℤ) (bs rest : Bytes) → put_signed z ≡ some bs → take_signed (bs ++ rest) ≡ some (z, rest)
signed_back (pos n) bs rest e =
    subst (λ zs. take_signed (zs ++ rest) ≡ some (pos n, rest)) (same_bytes _ bs e) refl
signed_back (negsuc n) bs rest e =
    subst (λ zs. take_signed (zs ++ rest) ≡ some (negsuc n, rest)) (same_bytes _ bs e) refl

text_nonempty : (s : String) → 0 < length (put_text s)
text_nonempty String.[] = omega arith
text_nonempty (String.◌∷◌ c s) = omega arith

flag_back : (b : Bool) (rest : Bytes) → take_flag (put_flag b ++ rest) ≡ some (b, rest)
flag_back true rest = refl
flag_back false rest = refl

signed_fits :
    (z : ℤ)
    → pos_part z < 2147483648
    → neg_part z ≤ 2147483648
    → (bs : Bytes) × (put_signed z ≡ some bs)
signed_fits (pos n) above below = (_, refl)
signed_fits (negsuc n) above below = (_, refl)

pub wire-IsSound : IsSound wire
wire-IsSound = record {
  uint32 = number_back;
  uint32_fits = λ n h. (n ∷ [], refl);
  float_fits = λ v h. (v ∷ [], refl);
  int32_fits = signed_fits;
  int64_fits = λ s h. (put_text s, refl);
  signed = λ n. refl;
  nonempty = uint32_nonempty;
  int32 = signed_back;
  float = number_back;
  float_nonempty = number_nonempty;
  uint64 = λ s bs rest e.
      subst (λ zs. take_text (zs ++ rest) ≡ some (s, rest)) (same_bytes (put_text s) bs e)
        (take_text-put_text s rest);
  uint64_fits = λ s h. (put_text s, refl);
  uint64_nonempty =
      λ s bs e. subst (λ zs. 0 < length zs) (same_bytes (put_text s) bs e) (text_nonempty s);
  uint64_zero = refl;
  int64 = λ s bs rest e.
      subst (λ zs. take_text (zs ++ rest) ≡ some (s, rest)) (same_bytes (put_text s) bs e)
        (take_text-put_text s rest);
  int64_zero = refl;
  string = take_text-put_text;
  bool = flag_back;
}
