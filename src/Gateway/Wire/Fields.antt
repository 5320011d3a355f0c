-- ===== src/Gateway/Wire/Fields.antt =====
-- The fields that are left out at their default: what the loop of a `decode` makes of them.
use vectron.Prelude.{
  ℕ, suc, ◌+◌, ◌<◌, length-append, ◌≡◌, refl, sym, ap, ◌∙◌, subst, String, Bool, false, not, Option,
  none, some, List, [], ◌∷◌, ◌++◌, length, map, ℤ, pos, negsuc, arith, is_empty_str, is_zero,
  eq_iff, str_eq, append_assoc, append-nil,
}
use vectron.Gateway.Wire.{
  Bytes, Taker, Wire, IsSound, ◌then_write◌, write_all, Reader, Switch, take_into, take_sized,
  take_packed, take_message, field, join, string_field, bool_field, uint32_field, int32_field,
  int64_field, optional_field, message_field, read_fields, read_packed,
}
use vectron.Gateway.Wire.Reads.{
  Writes, Writes-field, Writes-if, Writes-then, Writes-nil, Consumes, reader_at, read_fields-Reads,
}
use vectron.Gateway.Wire.Sized.{take_into-Consumes, take_sized-Consumes, read_packed-write_all}

map_same : {A : Type 0} (xs : List A) → map (λ v. v) xs ≡ xs
map_same [] = refl
map_same (a ∷ xs) = ap (λ ys. a ∷ ys) (map_same xs)

-- What is read of a message that may be missing.
abbrev pub read_option : {V : Type 0} → (V → V) → Option V → Option V
read_option as_read none = none
read_option as_read (some v) = some (as_read v)

module _ {F M : Type 0} (x : Wire F) (switch : ℕ → M → Reader → Switch M) (sound : IsSound x) where
  -- One value: what is read of it may differ from what was written.
  pub one_value :
      {V : Type 0} (tag : ℕ) (m : M) (taker : Taker V) (set : V → M) (v : V) (value : Option Bytes)
      → ((r : Reader) → switch tag m r ≡ take_into taker set r)
      → ((bs rest : Bytes) → value ≡ some bs → taker (bs ++ rest) ≡ some (v, rest))
      → Writes x switch (field x tag value) m (set v)
  one_value tag m taker set v value steps back =
      Writes-field x switch sound tag m (set v) value (λ bs e at rest.
        steps (reader_at at (bs ++ rest))
        ∙ take_into-Consumes taker set v bs at rest (back bs rest e))

  emptiness : (s : String) → not (is_empty_str s) ≡ false → "" ≡ s
  emptiness s h = ground (arith, eq_iff s "")

  pub string_field-Writes :
      (tag : ℕ) (set : String → M) (s : String)
      → ((r : Reader) → switch tag (set "") r ≡ take_into x.take_string set r)
      → Writes x switch (string_field x tag s) (set "") (set s)
  string_field-Writes tag set s steps =
      Writes-if x switch (not (is_empty_str s)) _ (set "") (set s) (λ h. ap set (emptiness s h))
        (one_value tag (set "") x.take_string set s (some (x.put_string s)) steps
          (λ bs rest e. ground (arith, sound.string s rest)))

  pub bool_field-Writes :
      (tag : ℕ) (set : Bool → M) (b : Bool)
      → ((r : Reader) → switch tag (set false) r ≡ take_into x.take_bool set r)
      → Writes x switch (bool_field x tag b) (set false) (set b)
  bool_field-Writes tag set b steps =
      Writes-if x switch b _ (set false) (set b) (λ h. ap set (sym h))
        (one_value tag (set false) x.take_bool set b (some (x.put_bool b)) steps
          (λ bs rest e. ground (arith, sound.bool b rest)))

  zeroness : (z : ℤ) → not (is_zero z) ≡ false → pos 0 ≡ z
  zeroness (pos n) h = ground arith
  zeroness (negsuc n) h = ground arith

  pub int32_field-Writes :
      (tag : ℕ) (set : ℤ → M) (z : ℤ)
      → ((r : Reader) → switch tag (set (pos 0)) r ≡ take_into x.take_int32 set r)
      → Writes x switch (int32_field x tag z) (set (pos 0)) (set z)
  int32_field-Writes tag set z steps =
      Writes-if x switch (not (is_zero z)) _ (set (pos 0)) (set z) (λ h. ap set (zeroness z h))
        (one_value tag (set (pos 0)) x.take_int32 set z (x.put_int32 z) steps
          (λ bs rest e. sound.int32 z bs rest e))

  at_zero : (s : String) → not (str_eq s "0") ≡ false → "0" ≡ x.to_int64 s
  at_zero s h = ground (arith, eq_iff s "0", sound.int64_zero)

  pub int64_field-Writes :
      (tag : ℕ) (set : String → M) (s : String)
      → ((r : Reader) → switch tag (set "0") r ≡ take_into x.take_int64 set r)
      → Writes x switch (int64_field x tag s) (set "0") (set (x.to_int64 s))
  int64_field-Writes tag set s steps =
      Writes-if x switch (not (str_eq s "0")) _ (set "0") (set (x.to_int64 s))
        (λ h. ap set (at_zero s h))
        (one_value tag (set "0") x.take_int64 set (x.to_int64 s) (x.put_int64 s) steps
          (sound.int64 s))

  uint32_value :
      (tag : ℕ) (set : ℤ → M) (z : ℤ)
      → ((r : Reader) → switch tag (set (pos 0)) r ≡ take_into x.take_uint32 (λ n. set (pos n)) r)
      → Writes x switch (field x tag (x.put_uint32 z)) (set (pos 0)) (set z)
  uint32_value tag set (pos n) steps =
      one_value tag (set (pos 0)) x.take_uint32 (λ n. set (pos n)) n (x.put_uint32 (pos n)) steps
        (λ bs rest e. sound.uint32 n bs rest e)
  uint32_value tag set (negsuc n) steps =
      Writes-field x switch sound tag (set (pos 0)) (set (negsuc n)) (x.put_uint32 (negsuc n))
        (λ bs e. absurd (cc (e, sound.signed n)))

  pub uint32_field-Writes :
      (tag : ℕ) (set : ℤ → M) (z : ℤ)
      → ((r : Reader) → switch tag (set (pos 0)) r ≡ take_into x.take_uint32 (λ n. set (pos n)) r)
      → Writes x switch (uint32_field x tag z) (set (pos 0)) (set z)
  uint32_field-Writes tag set z steps =
      Writes-if x switch (not (is_zero z)) _ (set (pos 0)) (set z) (λ h. ap set (zeroness z h))
        (uint32_value tag set z steps)

  -- Values that are pushed onto a list, one field each.
  pub write_all-Writes :
      {V U : Type 0} (write : V → Option Bytes) (as_read : V → U) (set : List U → M)
      → ((v : V) (us : List U) → Writes x switch (write v) (set us) (set (us ++ (as_read v ∷ []))))
      → (vs : List V) (us : List U)
      → Writes x switch (write_all write vs) (set us) (set (us ++ map as_read vs))
  unfolding write_all
  write_all-Writes write as_read set one [] us =
      subst (λ ws. Writes x switch (some []) (set us) (set ws)) (sym (append-nil us))
        (Writes-nil x switch (set us))
  write_all-Writes write as_read set one (v ∷ vs) us =
      subst (λ ws. Writes x switch (write v then_write write_all write vs) (set us) (set ws))
        (append_assoc us (as_read v ∷ []) (map as_read vs))
        (Writes-then x switch (write v) (write_all write vs) (set us) (set (us ++ (as_read v ∷ [])))
          _ (one v us) (write_all-Writes write as_read set one vs (us ++ (as_read v ∷ []))))

  sized_Writes :
      {V : Type 0} (tag : ℕ) (m : M) (body : ℕ → Reader → Option (V × Reader)) (set : V → M) (v : V)
      (value : Option Bytes)
      → ((r : Reader) → switch tag m r ≡ take_sized x body set r)
      → ((bs : Bytes) (at : ℕ) (rest : Bytes)
          → value ≡ some bs
          → body (at + length bs) (reader_at at (bs ++ rest))
            ≡ some (v, reader_at (at + length bs) rest))
      → Writes x switch (field x tag (join x value)) m (set v)
  sized_Writes tag m body set v value steps back =
      Writes-field x switch sound tag m (set v) (join x value) (λ out. taken value out refl)
    where
      taken :
          (o : Option Bytes) (out : Bytes)
          → value ≡ o
          → join x o ≡ some out
          → Consumes x switch tag m out (set v)
      taken none out h e at rest = absurd (cc e)
      taken (some bs) out h e at rest =
          steps (reader_at at (out ++ rest))
          ∙ take_sized-Consumes x sound body set v bs out (λ a r. back bs a r h) e at rest

  -- Packed values.
  pub packed-Writes :
      {V : Type 0} (tag : ℕ) (taker : Taker V) (write : V → Option Bytes) (as_read : V → V)
      (set : List V → M) (vs : List V)
      → ((r : Reader) → switch tag (set []) r ≡ take_packed x taker [] set r)
      → ((v : V) (bs rest : Bytes)
          → write v ≡ some bs
          → taker (bs ++ rest) ≡ some (as_read v, rest))
      → ((v : V) (bs : Bytes) → write v ≡ some bs → 0 < length bs)
      → Writes x switch (field x tag (join x (write_all write vs))) (set []) (set (map as_read vs))
  packed-Writes tag taker write as_read set vs steps back filled =
      sized_Writes tag (set []) (λ end r. read_packed x taker (suc (length r.rest)) end [] r) set
        (map as_read vs) (write_all write vs) steps
        (λ bs at rest e.
          read_packed-write_all x taker write as_read back filled vs [] bs rest
            (suc (length (bs ++ rest))) at e (omega (arith, length-append bs rest)))

  -- A message inside of another one, if its own loop reads it.
  pub message-Writes :
      {V : Type 0} (inner : ℕ → V → Reader → Switch V) (tag : ℕ) (m : M) (base v : V) (set : V → M)
      (value : Option Bytes)
      → ((r : Reader) → switch tag m r ≡ take_message x inner base set r)
      → Writes x inner value base v
      → Writes x switch (field x tag (join x value)) m (set v)
  message-Writes inner tag m base v set value steps writes =
      sized_Writes tag m (λ end r. read_fields x inner (suc (length r.rest)) end base r) set v value
        steps (λ bs at rest e. read_fields-Reads x inner bs base v at rest (writes bs e))

  -- A message that may be missing.
  pub optional-Writes :
      {V : Type 0} (inner : ℕ → V → Reader → Switch V) (tag : ℕ) (base : V) (set : Option V → M)
      (encode : V → Option Bytes) (as_read : V → V) (o : Option V)
      → ((r : Reader) → switch tag (set none) r ≡ take_message x inner base (λ v. set (some v)) r)
      → ((v : V) → Writes x inner (encode v) base (as_read v))
      → Writes x switch (optional_field x tag encode o) (set none) (set (read_option as_read o))
  unfolding optional_field
  optional-Writes inner tag base set encode as_read none steps writes =
      Writes-nil x switch (set none)
  optional-Writes inner tag base set encode as_read (some v) steps writes =
      message-Writes inner tag (set none) base (as_read v) (λ u. set (some u)) (encode v) steps
        (writes v)

  -- Messages that are pushed onto a list.
  pub messages-Writes :
      {V : Type 0} (inner : ℕ → V → Reader → Switch V) (tag : ℕ) (base : V) (set : List V → M)
      (encode : V → Option Bytes) (as_read : V → V) (vs : List V)
      → ((us : List V) (r : Reader)
          → switch tag (set us) r ≡ take_message x inner base (λ v. set (us ++ (v ∷ []))) r)
      → ((v : V) → Writes x inner (encode v) base (as_read v))
      → Writes x switch
          (write_all (λ v. message_field x tag (encode v)) vs)
          (set [])
          (set (map as_read vs))
  messages-Writes inner tag base set encode as_read vs steps writes =
      write_all-Writes (λ v. message_field x tag (encode v)) as_read set
        (λ v us.
          message-Writes inner tag (set us) base (as_read v) (λ u. set (us ++ (u ∷ []))) (encode v)
            (steps us) (writes v))
        vs []

  -- Texts that are pushed onto a list.
  pub strings-Writes :
      (tag : ℕ) (set : List String → M) (ss : List String)
      → ((us : List String) (r : Reader)
          → switch tag (set us) r ≡ take_into x.take_string (λ s. set (us ++ (s ∷ []))) r)
      → Writes x switch (write_all (λ s. field x tag (some (x.put_string s))) ss) (set []) (set ss)
  strings-Writes tag set ss steps =
      subst
        (λ ts.
          Writes x switch (write_all (λ s. field x tag (some (x.put_string s))) ss) (set [])
            (set ts))
        (map_same ss)
        (write_all-Writes (λ s. field x tag (some (x.put_string s))) (λ s. s) set
          (λ s us.
            one_value tag (set us) x.take_string (λ t. set (us ++ (t ∷ []))) s
              (some (x.put_string s)) (steps us)
              (λ bs rest e. ground (arith, e, sound.string s rest)))
          ss [])
