-- ===== src/Gateway/Wire/Sized.antt =====
-- The cases that take one value, a number of bytes, or packed values.
use vectron.Prelude.{
  ℕ, zero, suc, ◌+◌, ◌-◌, ◌<◌, ◌≡◌, refl, sym, ap, ◌∙◌, subst, true, false, Option, none, some,
  List, [], ◌∷◌, ◌++◌, length, length-append, append_assoc, append-nil, pos, arith, ltb, map,
}
use vectron.Gateway.Wire.{
  Bytes, Taker, Wire, IsSound, ◌then_write◌, Reader, moved_to, continued, take_into, take_sized,
  read_packed, write_all, join,
}
use vectron.Gateway.Wire.Reads.{reader_at}

-- Two writes in a row that do not throw.
pub then_write_some :
    (a b : Option Bytes) (out : Bytes)
    → (a then_write b) ≡ some out
    → (xs : Bytes) × (ys : Bytes) × (a ≡ some xs) × (b ≡ some ys) × (xs ++ ys ≡ out)
then_write_some none b out e = absurd (cc e)
then_write_some (some xs) none out e = absurd (cc e)
then_write_some (some xs) (some ys) out e = (xs, ys, refl, refl, ground (arith, e))

-- A case that takes one value.
pub take_into-Consumes :
    {V M : Type 0} (taker : Taker V) (set : V → M) (v : V) (body : Bytes) (at : ℕ) (rest : Bytes)
    → taker (body ++ rest) ≡ some (v, rest)
    → take_into taker set (reader_at at (body ++ rest))
      ≡ continued (set v) (reader_at (at + length body) rest)
take_into-Consumes taker set v body at rest back =
    let lengths = length-append body rest in
    rw (take_into, back) (ap (λ n. continued (set v) (reader_at n rest)) (omega arith))

sized_step :
    {F V M : Type 0} (x : Wire F) (body : ℕ → Reader → Option (V × Reader)) (set : V → M) (v : V)
    (n : ℕ) (rest : Bytes) (r after : Reader)
    → x.take_uint32 r.rest ≡ some (n, rest)
    → body (r.at + (length r.rest - length rest) + n) (moved_to r rest) ≡ some (v, after)
    → take_sized x body set r ≡ continued (set v) after
sized_step x body set v n rest r after h b = rw (take_sized, h, b) refl

-- A case that takes sized bytes.
pub take_sized-Consumes :
    {F V M : Type 0} (x : Wire F)
    → IsSound x
    → (body : ℕ → Reader → Option (V × Reader)) (set : V → M) (v : V) (bs out : Bytes)
    → ((at : ℕ) (rest : Bytes)
        → body (at + length bs) (reader_at at (bs ++ rest))
          ≡ some (v, reader_at (at + length bs) rest))
    → join x (some bs) ≡ some out
    → (at : ℕ) (rest : Bytes)
    → take_sized x body set (reader_at at (out ++ rest))
      ≡ continued (set v) (reader_at (at + length out) rest)
take_sized-Consumes x sound body set v bs out back e at rest =
    sized (x.put_uint32 (pos (length bs))) refl e
  where
    sized :
        (o : Option Bytes)
        → x.put_uint32 (pos (length bs)) ≡ o
        → (o then_write some bs) ≡ some out
        → take_sized x body set (reader_at at (out ++ rest))
          ≡ continued (set v) (reader_at (at + length out) rest)
    sized none h e = absurd (cc e)
    sized (some ls) h e =
        let same : ls ++ bs ≡ out = ground (arith, e) in
        let lengths = length-append ls bs in
        let lengths' = length-append ls (bs ++ rest) in
        let lengths'' = length-append (ls ++ bs) rest in
        let lengths''' = length-append bs rest in
        let place : at + (length ((ls ++ bs) ++ rest) - length (bs ++ rest)) ≡ at + length ls =
          omega arith in
        let counted : x.take_uint32 ((ls ++ bs) ++ rest) ≡ some (length bs, bs ++ rest) =
          ap x.take_uint32 (append_assoc ls bs rest) ∙ sound.uint32 (length bs) ls (bs ++ rest) h in
        subst
          (λ zs.
            take_sized x body set (reader_at at (zs ++ rest))
            ≡ continued (set v) (reader_at (at + length zs) rest))
          same
          (sized_step x body set v (length bs) (bs ++ rest) (reader_at at ((ls ++ bs) ++ rest))
            (reader_at (at + length (ls ++ bs)) rest) counted
            (ap (λ p. body (p + length bs) (reader_at p (bs ++ rest))) place
              ∙ back (at + length ls) rest
              ∙ ap (λ n. some (v, reader_at n rest)) (omega arith)))

module _ {F : Type 0} (x : Wire F) where
  packed_turn :
      {V : Type 0} (taker : Taker V) (fuel end : ℕ) (vs : List V) (v : V) (r : Reader)
      (rest : Bytes)
      → ltb r.at end ≡ true
      → taker r.rest ≡ some (v, rest)
      → read_packed x taker (suc fuel) end vs r
        ≡ read_packed x taker fuel end (vs ++ (v ∷ [])) (moved_to r rest)
  unfolding read_packed
  packed_turn taker fuel end vs v r rest below taken = rw (below, taken) refl

  packed_end :
      {V : Type 0} (taker : Taker V) (fuel at : ℕ) (vs : List V) (rest : Bytes)
      → read_packed x taker (suc fuel) at vs (reader_at at rest) ≡ some (vs, reader_at at rest)
  unfolding read_packed
  packed_end taker fuel at vs rest = let past : ltb at at ≡ false = ground arith in rw past refl

  -- Packed values are read back one by one, each the way `as_read` says.
  pub read_packed-write_all :
      {V : Type 0} (taker : Taker V) (write : V → Option Bytes) (as_read : V → V)
      → ((v : V) (bs rest : Bytes)
          → write v ≡ some bs
          → taker (bs ++ rest) ≡ some (as_read v, rest))
      → ((v : V) (bs : Bytes) → write v ≡ some bs → 0 < length bs)
      → (us vs : List V) (bs rest : Bytes) (fuel at : ℕ) → write_all write us ≡ some bs
      → length bs < fuel
      → read_packed x taker fuel (at + length bs) vs (reader_at at (bs ++ rest))
        ≡ some (vs ++ map as_read us, reader_at (at + length bs) rest)
  unfolding write_all
  read_packed-write_all taker write as_read back filled us vs bs rest zero at e enough =
      absurd (omega arith)
  read_packed-write_all taker write as_read back filled [] vs bs rest (suc fuel) at e enough =
      let same : [] ≡ bs = ground (arith, e) in
      subst
        (λ zs.
          read_packed x taker (suc fuel) (at + length zs) vs (reader_at at (zs ++ rest))
          ≡ some (vs ++ [], reader_at (at + length zs) rest))
        same
        (ap (λ n. read_packed x taker (suc fuel) (at + 0) vs (reader_at n rest)) (omega arith)
          ∙ packed_end taker fuel (at + 0) vs rest
          ∙ ap (λ us. some (us, reader_at (at + 0) rest)) (sym (append-nil vs)))
  read_packed-write_all taker write as_read back filled (u ∷ us) vs bs rest (suc fuel) at e enough =
      let (xs, ys, ha, hb, same) = then_write_some (write u) (write_all write us) bs e in
      let lengths = length-append xs ys in
      let lengths' = length-append xs (ys ++ rest) in
      let some_bytes = filled u xs ha in
      let short : length ys < fuel = omega (arith, ap length same) in
      let below : ltb at (at + length (xs ++ ys)) ≡ true = ground arith in
      subst
        (λ zs.
          read_packed x taker (suc fuel) (at + length zs) vs (reader_at at (zs ++ rest))
          ≡ some (vs ++ map as_read (u ∷ us), reader_at (at + length zs) rest))
        same
        (ap (λ zs. read_packed x taker (suc fuel) (at + length (xs ++ ys)) vs (reader_at at zs))
            (append_assoc xs ys rest)
          ∙ packed_turn taker fuel (at + length (xs ++ ys)) vs (as_read u)
              (reader_at at (xs ++ (ys ++ rest))) (ys ++ rest) below (back u xs (ys ++ rest) ha)
          ∙ ap
              (λ n.
                read_packed x taker fuel (at + length (xs ++ ys)) (vs ++ (as_read u ∷ []))
                  (reader_at n (ys ++ rest)))
              (omega arith)
          ∙ ap
              (λ n.
                read_packed x taker fuel n (vs ++ (as_read u ∷ []))
                  (reader_at (at + length xs) (ys ++ rest)))
              (omega arith)
          ∙ read_packed-write_all taker write as_read back filled us (vs ++ (as_read u ∷ [])) ys
              rest fuel (at + length xs) hb short
          ∙ ap (λ ws. some (ws, reader_at (at + length xs + length ys) rest))
              (append_assoc vs (as_read u ∷ []) (map as_read us))
          ∙ ap (λ n. some (vs ++ map as_read (u ∷ us), reader_at n rest)) (omega arith))
