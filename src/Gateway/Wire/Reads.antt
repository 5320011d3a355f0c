-- ===== src/Gateway/Wire/Reads.antt =====
-- The loop of a `decode` on what an `encode` wrote, field by field.
use vectron.Prelude.{
  ℕ, zero, suc, ◌+◌, ◌≤◌, ◌≡◌, refl, sym, ap, ◌∙◌, subst, Bool, true, false, Option, none, some, [],
  ◌++◌, length, length-append, append_assoc, append-nil, pos, arith, ltb,
}
use vectron.Gateway.Wire.{
  Bytes, Wire, IsSound, ◌then_write◌, write_if, Reader, moved_to, Switch, continued, field,
  read_fields, decode_all, only_message,
}

abbrev pub reader_at : ℕ → Bytes → Reader
reader_at at rest = record { at = at; rest = rest }

module _ {F M : Type 0} (x : Wire F) (switch : ℕ → M → Reader → Switch M) where
  -- Reading these bytes, whatever follows, takes the loop from one message to the other, with a turn
  -- for each byte at most.
  abbrev pub Reads : Bytes → M → M → Type 0
  Reads bs m m' =
      (k fuel end at : ℕ) (rest : Bytes)
      → length bs + k ≤ fuel
      → at + length bs ≤ end
      → (left : ℕ) × (k ≤ left)
        × (read_fields x switch fuel end m (reader_at at (bs ++ rest))
            ≡ read_fields x switch left end m' (reader_at (at + length bs) rest))

  -- The same of a write that may throw.
  abbrev pub Writes : Option Bytes → M → M → Type 0
  Writes o m m' = (bs : Bytes) → o ≡ some bs → Reads bs m m'

  Reads-nil : (m : M) → Reads [] m m
  Reads-nil m k fuel end at rest enough within = (
    fuel,
    omega arith,
    ap (λ n. read_fields x switch fuel end m (reader_at n rest)) (omega arith),
  )

  Reads-append :
      (xs ys : Bytes) (m m' m'' : M) → Reads xs m m' → Reads ys m' m'' → Reads (xs ++ ys) m m''
  Reads-append xs ys m m' m'' first second k fuel end at rest enough within =
      let lengths = length-append xs ys in
      let (l, hl, e) = first (length ys + k) fuel end at (ys ++ rest) (omega arith) (omega arith) in
      let (l', hl', e') = second k l end (at + length xs) rest hl (omega arith) in
      (
        l',
        hl',
        ap (λ bs. read_fields x switch fuel end m (reader_at at bs)) (append_assoc xs ys rest)
            ∙ e
            ∙ e'
            ∙ ap (λ n. read_fields x switch l' end m'' (reader_at n rest)) (omega arith),
      )

  pub Writes-then :
      (a b : Option Bytes) (m m' m'' : M)
      → Writes a m m'
      → Writes b m' m''
      → Writes (a then_write b) m m''
  Writes-then none b m m' m'' ha hb bs e = absurd (cc e)
  Writes-then (some xs) none m m' m'' ha hb bs e = absurd (cc e)
  Writes-then (some xs) (some ys) m m' m'' ha hb bs e =
      subst (λ zs. Reads zs m m'') (ground (arith, e))
        (Reads-append xs ys m m' m'' (ha xs refl) (hb ys refl))

  -- Nothing is written.
  pub Writes-nil : (m : M) → Writes (some []) m m
  Writes-nil m bs e = subst (λ zs. Reads zs m m) {x = []} (ground (arith, e)) (Reads-nil m)

  pub Writes-if :
      (b : Bool) (a : Option Bytes) (m m' : M)
      → (b ≡ false → m ≡ m')
      → Writes a m m'
      → Writes (write_if b a) m m'
  Writes-if true a m m' same h bs e = h bs e
  Writes-if false a m m' same h bs e = subst (Writes (some []) m) (same refl) (Writes-nil m) bs e

  turn :
      (fuel end tag : ℕ) (m m' : M) (r r' : Reader) (rest : Bytes)
      → ltb r.at end ≡ true
      → x.take_uint32 r.rest ≡ some (tag, rest)
      → switch tag m (moved_to r rest) ≡ continued m' r'
      → read_fields x switch (suc fuel) end m r ≡ read_fields x switch fuel end m' r'
  unfolding read_fields
  turn fuel end tag m m' r r' rest below tagged step = rw (below, tagged, step) refl

  -- The cases take these bytes, whatever follows, and go on with the other message.
  abbrev pub Consumes : ℕ → M → Bytes → M → Type 0
  Consumes tag m body m' =
      (at : ℕ) (rest : Bytes)
      → switch tag m (reader_at at (body ++ rest))
        ≡ continued m' (reader_at (at + length body) rest)

  one_field :
      IsSound x
      → (tag : ℕ) (m m' : M) (ts body : Bytes) → x.put_uint32 (pos tag) ≡ some ts
      → Consumes tag m body m'
      → Reads (ts ++ body) m m'
  one_field sound tag m m' ts body put steps k zero end at rest enough within =
      absurd (omega (arith, sound.nonempty (pos tag) ts put, length-append ts body))
  one_field sound tag m m' ts body put steps k (suc fuel) end at rest enough within =
      let some_tag = sound.nonempty (pos tag) ts put in
      let lengths = length-append ts body in
      let lengths' = length-append ts (body ++ rest) in
      let r = reader_at at (ts ++ (body ++ rest)) in
      let r' = moved_to r (body ++ rest) in
      let place : r'.at ≡ at + length ts = omega arith in
      let step : switch tag m r' ≡ continued m' (reader_at (at + length ts + length body) rest) =
        ap (λ n. switch tag m (reader_at n (body ++ rest))) place ∙ steps (at + length ts) rest in
      let below : ltb at end ≡ true = ground arith in
      (
        fuel,
        omega arith,
        ap (λ bs. read_fields x switch (suc fuel) end m (reader_at at bs))
              (append_assoc ts body rest)
            ∙ turn fuel end tag m m' r (reader_at (at + length ts + length body) rest)
                (body ++ rest) below (sound.uint32 tag ts (body ++ rest) put) step
            ∙ ap (λ n. read_fields x switch fuel end m' (reader_at n rest)) (omega arith),
      )

  -- A field is read if its case takes the bytes that were written for its value.
  pub Writes-field :
      IsSound x
      → (tag : ℕ) (m m' : M) (value : Option Bytes)
      → ((bs : Bytes) → value ≡ some bs → Consumes tag m bs m')
      → Writes (field x tag value) m m'
  Writes-field sound tag m m' value steps bs e = written (x.put_uint32 (pos tag)) refl value refl e
    where
      written :
          (o : Option Bytes)
          → x.put_uint32 (pos tag) ≡ o
          → (p : Option Bytes) → value ≡ p
          → (o then_write p) ≡ some bs
          → Reads bs m m'
      written none ho p hp e = absurd (cc e)
      written (some ts) ho none hp e = absurd (cc e)
      written (some ts) ho (some body) hp e =
          subst (λ zs. Reads zs m m') (ground (arith, e))
            (one_field sound tag m m' ts body ho (steps body hp))

  stop :
      (left end : ℕ) (m : M) (r : Reader)
      → 1 ≤ left
      → end ≤ r.at
      → read_fields x switch left end m r ≡ some (m, r)
  unfolding read_fields
  stop zero end m r some_left over = absurd (omega arith)
  stop (suc left) end m r some_left over =
      let past : ltb r.at end ≡ false = ground arith in rw past refl

  -- A loop that ends where these bytes do stops there.
  pub read_fields-Reads :
      (bs : Bytes) (m m' : M) (at : ℕ) (rest : Bytes)
      → Reads bs m m'
      → read_fields x switch
          (suc (length (bs ++ rest)))
          (at + length bs)
          m
          (reader_at at (bs ++ rest))
        ≡ some (m', reader_at (at + length bs) rest)
  read_fields-Reads bs m m' at rest reads =
      let (left, some_left, e) =
        reads 1 (suc (length (bs ++ rest))) (at + length bs) at rest
          (omega (arith, length-append bs rest)) (omega arith) in
      e ∙ stop left (at + length bs) m' (reader_at (at + length bs) rest) some_left (omega arith)

  -- Bytes that lead the loop from the empty message to another one are decoded as that one.
  pub decode_all-Reads :
      (bs : Bytes) (m m' : M) → Reads bs m m' → decode_all x switch m bs ≡ some m'
  decode_all-Reads bs m m' reads = ap only_message (
      ap (λ zs. read_fields x switch (suc (length zs)) (length bs) m (reader_at 0 zs))
        (sym (append-nil bs))
      ∙ ap (λ n. read_fields x switch (suc (length (bs ++ []))) n m (reader_at 0 (bs ++ [])))
          (omega arith)
      ∙ read_fields-Reads bs m m' 0 [] reads)
