-- ===== src/Gateway/Wire/Returns.antt =====
-- When the writes of an `encode` do not throw.
use vectron.Prelude.{
  ℕ, ◌<◌, ◌≡◌, refl, ap, ◌∙◌, String, Bool, true, false, Option, none, some, List, [], ◌∷◌, ◌++◌,
  length, All, ℤ, pos, not, is_empty_str, is_zero, pos_part, neg_part, ◌≤◌, str_eq, subst, arith,
}
use vectron.Gateway.Wire.{
  Bytes, Wire, IsSound, ◌then_write◌, write_if, write_all, field, join, string_field, bool_field,
  uint32_field, int32_field, int64_field, message_field, optional_field,
}

-- The write does not throw.
abbrev pub Returns : Option Bytes → Type 0
Returns o = (bs : Bytes) × (o ≡ some bs)

-- A number that `uint32` takes.
abbrev pub IsUint32 : ℤ → Type 0
IsUint32 z = (n : ℕ) × (z ≡ pos n) × (n < 4294967296)

-- A number that `int32` takes.
abbrev pub IsInt32 : ℤ → Type 0
IsInt32 z = (pos_part z < 2147483648) × (neg_part z ≤ 2147483648)

-- What is written, if anything, has less than 4 GiB, so that its length is a uint32.
abbrev pub IsShort : Option Bytes → Type 0
IsShort none = Unit
IsShort (some bs) = length bs < 4294967296

-- A message inside of another one that is written.
abbrev pub IsInner : {V : Type 0} → (V → Type 0) → (V → Option Bytes) → V → Type 0
IsInner Fits encode v = Fits v × IsShort (encode v)

abbrev pub IsOptional : {V : Type 0} → (V → Type 0) → (V → Option Bytes) → Option V → Type 0
IsOptional Fits encode none = Unit
IsOptional Fits encode (some v) = IsInner Fits encode v

pub Returns-then : (a b : Option Bytes) → Returns a → Returns b → Returns (a then_write b)
Returns-then none b (xs, e) hb = absurd (cc e)
Returns-then (some xs) none ha (ys, e) = absurd (cc e)
Returns-then (some xs) (some ys) ha hb = (xs ++ ys, refl)

pub Returns-if : (b : Bool) (a : Option Bytes) → Returns a → Returns (write_if b a)
Returns-if true a h = h
Returns-if false a h = ([], refl)

pub Returns-All :
    {V : Type 0} (write : V → Option Bytes) (vs : List V)
    → All (λ v. Returns (write v)) vs
    → Returns (write_all write vs)
unfolding write_all
Returns-All write [] h = ([], refl)
Returns-All write (v ∷ vs) (h, hs) =
    Returns-then (write v) (write_all write vs) h (Returns-All write vs hs)

module _ {F : Type 0} (x : Wire F) (sound : IsSound x) where
  pub Returns-field :
      (tag : ℕ) (value : Option Bytes)
      → tag < 4294967296
      → Returns value
      → Returns (field x tag value)
  Returns-field tag value small h =
      Returns-then (x.put_uint32 (pos tag)) value (sound.uint32_fits tag small) h

  pub Returns-string : (tag : ℕ) (s : String) → tag < 4294967296 → Returns (string_field x tag s)
  Returns-string tag s small =
      Returns-if (not (is_empty_str s)) _
        (Returns-field tag (some (x.put_string s)) small (x.put_string s, refl))

  pub Returns-bool : (tag : ℕ) (b : Bool) → tag < 4294967296 → Returns (bool_field x tag b)
  Returns-bool tag b small =
      Returns-if b _ (Returns-field tag (some (x.put_bool b)) small (x.put_bool b, refl))

  pub Returns-uint32 :
      (tag : ℕ) (z : ℤ) → tag < 4294967296 → IsUint32 z → Returns (uint32_field x tag z)
  Returns-uint32 tag z small (n, e, fits) =
      let (bs, put) = sound.uint32_fits n fits in
      Returns-if (not (is_zero z)) _
        (Returns-field tag (x.put_uint32 z) small (bs, ap x.put_uint32 e ∙ put))

  pub Returns-floats :
      (vs : List F) → All (λ v. x.is_float32 v ≡ true) vs → All (λ v. Returns (x.put_float v)) vs
  Returns-floats [] h = tt
  Returns-floats (v ∷ vs) (h, hs) = (sound.float_fits v h, Returns-floats vs hs)

  -- `fork` and `join` return if what is between them does, in less than 4 GiB.
  pub Returns-join :
      (value : Option Bytes)
      → Returns value
      → ((bs : Bytes) → value ≡ some bs → length bs < 4294967296)
      → Returns (join x value)
  Returns-join none (bs, e) short = absurd (cc e)
  Returns-join (some bs) h short =
      Returns-then (x.put_uint32 (pos (length bs))) (some bs)
        (sound.uint32_fits (length bs) (short bs refl)) (bs, refl)

  pub Returns-int32 :
      (tag : ℕ) (z : ℤ) → tag < 4294967296 → IsInt32 z → Returns (int32_field x tag z)
  Returns-int32 tag z small (above, below) =
      Returns-if (not (is_zero z)) _
        (Returns-field tag (x.put_int32 z) small (sound.int32_fits z above below))

  pub Returns-int64 :
      (tag : ℕ) (s : String)
      → tag < 4294967296
      → x.is_int64 s ≡ true
      → Returns (int64_field x tag s)
  Returns-int64 tag s small fits =
      Returns-if (not (str_eq s "0")) _
        (Returns-field tag (x.put_int64 s) small (sound.int64_fits s fits))

  Returns-message :
      {V : Type 0} (tag : ℕ) (Fits : V → Type 0) (encode : V → Option Bytes) (v : V)
      → tag < 4294967296
      → (Fits v → Returns (encode v))
      → IsInner Fits encode v
      → Returns (message_field x tag (encode v))
  Returns-message tag Fits encode v small returns (fits, short) =
      Returns-field tag _ small (Returns-join (encode v) (returns fits) (below (encode v) short))
    where
      below : (o : Option Bytes) → IsShort o → (bs : Bytes) → o ≡ some bs → length bs < 4294967296
      below none h bs e = absurd (cc e)
      below (some cs) h bs e = subst (λ zs. length zs < 4294967296) (ground (arith, e)) h

  pub Returns-optional :
      {V : Type 0} (tag : ℕ) (Fits : V → Type 0) (encode : V → Option Bytes) (o : Option V)
      → tag < 4294967296
      → ((v : V) → Fits v → Returns (encode v))
      → IsOptional Fits encode o
      → Returns (optional_field x tag encode o)
  unfolding optional_field
  Returns-optional tag Fits encode none small returns h = ([], refl)
  Returns-optional tag Fits encode (some v) small returns h =
      Returns-message tag Fits encode v small (returns v) h

  pub Returns-messages :
      {V : Type 0} (tag : ℕ) (Fits : V → Type 0) (encode : V → Option Bytes) (vs : List V)
      → tag < 4294967296
      → ((v : V) → Fits v → Returns (encode v))
      → All (IsInner Fits encode) vs
      → Returns (write_all (λ v. message_field x tag (encode v)) vs)
  Returns-messages tag Fits encode vs small returns h =
      Returns-All (λ v. message_field x tag (encode v)) vs (each vs h)
    where
      each :
          (us : List _)
          → All (IsInner Fits encode) us
          → All (λ v. Returns (message_field x tag (encode v))) us
      each [] hs = tt
      each (u ∷ us) (now, later) =
          (Returns-message tag Fits encode u small (returns u) now, each us later)

  pub Returns-strings :
      (tag : ℕ) (ss : List String)
      → tag < 4294967296
      → Returns (write_all (λ s. field x tag (some (x.put_string s))) ss)
  unfolding write_all
  Returns-strings tag [] small = ([], refl)
  Returns-strings tag (s ∷ ss) small =
      Returns-then _ _ (Returns-field tag (some (x.put_string s)) small (x.put_string s, refl))
        (Returns-strings tag ss small)

  -- Packed values.
  pub Returns-packed :
      {V : Type 0} (tag : ℕ) (write : V → Option Bytes) (vs : List V)
      → tag < 4294967296
      → All (λ v. Returns (write v)) vs
      → IsShort (write_all write vs)
      → Returns (field x tag (join x (write_all write vs)))
  Returns-packed tag write vs small h short =
      Returns-message tag (λ us. All (λ v. Returns (write v)) us) (write_all write) vs small
        (λ hs. Returns-All write vs hs) (h, short)

  pub Returns-uint64s :
      (ss : List String)
      → All (λ s. x.is_uint64 s ≡ true) ss
      → All (λ s. Returns (x.put_uint64 s)) ss
  Returns-uint64s [] h = tt
  Returns-uint64s (s ∷ ss) (h, hs) = (sound.uint64_fits s h, Returns-uint64s ss hs)

  pub Returns-uint64 :
      (tag : ℕ) (s : String)
      → tag < 4294967296
      → x.is_uint64 s ≡ true
      → Returns (write_if (not (str_eq s "0")) (field x tag (x.put_uint64 s)))
  Returns-uint64 tag s small fits =
      Returns-if (not (str_eq s "0")) _
        (Returns-field tag (x.put_uint64 s) small (sound.uint64_fits s fits))
