-- ===== src/Client/Batch/Cut.antt =====
-- The batches that `upsertBatch` of clientlibs/js/src/client.ts cuts: nothing is lost or reordered,
-- no batch is empty or too large, and by bytes each batch is as full as it can be.
use vectron.Prelude.{
  ℕ, zero, suc, ◌+◌, ◌≤◌, ◌<◌, ◌≡◌, refl, ap, sym, subst, ◌∙◌, ◌⊎◌, inl, inr, List, [], ◌∷◌, ◌++◌,
  arith, length, take, drop, concat, take-append-drop, length-drop, length-take, All,
}
use vectron.Client.Batch.{fill, cut_by_bytes, cut_by_count}

module _ {A : Type 0} (bytes_of : A → ℕ) where
  abbrev pub sum_bytes : List A → ℕ
  sum_bytes [] = 0
  sum_bytes (p ∷ ps) = bytes_of p + sum_bytes ps

module _ {A : Type 0} (bytes_of : A → ℕ) (size max_bytes : ℕ) where
  fill-append :
      (ps : List A) (count bytes : ℕ)
      → (fill bytes_of size max_bytes ps count bytes).0
          ++ (fill bytes_of size max_bytes ps count bytes).1
        ≡ ps
  unfolding fill
  fill-append [] count bytes = refl
  fill-append (p ∷ ps) count bytes = ground (arith, fill-append ps (suc count) (bytes + bytes_of p))

  fill_count :
      (ps : List A) (count bytes : ℕ)
      → count ≤ size
      → count + length (fill bytes_of size max_bytes ps count bytes).0 ≤ size
  unfolding fill
  fill_count [] count bytes h = omega arith
  fill_count (p ∷ ps) count bytes h = ground (arith, fill_count ps (suc count) (bytes + bytes_of p))

  fill_rest :
      (ps : List A) (count bytes : ℕ)
      → length (fill bytes_of size max_bytes ps count bytes).1 ≤ length ps
  unfolding fill
  fill_rest [] count bytes = omega arith
  fill_rest (p ∷ ps) count bytes = ground (arith, fill_rest ps (suc count) (bytes + bytes_of p))

  -- The first item of a batch is always taken.
  fill_first :
      (p : A) (ps : List A)
      → 0 < size
      → (0 < length (fill bytes_of size max_bytes (p ∷ ps) 0 0).0)
        × (length (fill bytes_of size max_bytes (p ∷ ps) 0 0).1 ≤ length ps)
  unfolding fill
  fill_first p ps h = ground (arith, fill_rest ps 1 (0 + bytes_of p))

  -- Beyond the first item the bytes fit.
  fill_bytes :
      (ps : List A) (count bytes : ℕ)
      → 0 < count
      → bytes ≤ max_bytes
      → bytes + sum_bytes bytes_of (fill bytes_of size max_bytes ps count bytes).0 ≤ max_bytes
  unfolding fill
  fill_bytes [] count bytes h k = omega arith
  fill_bytes (p ∷ ps) count bytes h k =
      ground (arith, fill_bytes ps (suc count) (bytes + bytes_of p))

  -- A batch stops at the end, at the size, or before an item that does not fit.
  abbrev pub IsFull : ℕ → ℕ → List A → List A → Type 0
  IsFull count bytes b [] = Unit {0}
  IsFull count bytes b (p ∷ ps) =
      (count + length b ≡ size) ⊎ (max_bytes < bytes + sum_bytes bytes_of b + bytes_of p)

  IsFull-cons :
      (count bytes : ℕ) (p : A) (b rest : List A)
      → IsFull (suc count) (bytes + bytes_of p) b rest
      → IsFull count bytes (p ∷ b) rest
  IsFull-cons count bytes p b [] h = tt
  IsFull-cons count bytes p b (q ∷ qs) (inl h) = inl (omega arith)
  IsFull-cons count bytes p b (q ∷ qs) (inr h) = inr (omega arith)

  fill-IsFull :
      (ps : List A) (count bytes : ℕ)
      → count ≤ size
      → IsFull count bytes
          (fill bytes_of size max_bytes ps count bytes).0
          (fill bytes_of size max_bytes ps count bytes).1
  unfolding fill
  fill-IsFull [] count bytes h = tt
  fill-IsFull (p ∷ ps) count bytes h = ground (
    arith,
    IsFull-cons count bytes p (fill bytes_of size max_bytes ps (suc count) (bytes + bytes_of p)).0
        (fill bytes_of size max_bytes ps (suc count) (bytes + bytes_of p)).1,
    fill-IsFull ps (suc count) (bytes + bytes_of p),
  )

  fill_over :
      (ps : List A) (count bytes : ℕ)
      → 0 < count
      → max_bytes < bytes
      → (fill bytes_of size max_bytes ps count bytes).0 ≡ []
  unfolding fill
  fill_over [] count bytes h k = refl
  fill_over (p ∷ ps) count bytes h k = ground arith

  batch_bytes :
      (p : A) (ps : List A)
      → (length (fill bytes_of size max_bytes (p ∷ ps) 0 0).0 ≡ 1)
        ⊎ (sum_bytes bytes_of (fill bytes_of size max_bytes (p ∷ ps) 0 0).0 ≤ max_bytes)
  unfolding fill
  batch_bytes p ps =
      ground (arith, fill_bytes ps 1 (0 + bytes_of p), fill_over ps 1 (0 + bytes_of p))

  pub concat-cut_by_bytes :
      (fuel : ℕ) (ps : List A)
      → 0 < size
      → length ps ≤ fuel
      → concat (cut_by_bytes fuel bytes_of size max_bytes ps) ≡ ps
  unfolding cut_by_bytes
  concat-cut_by_bytes zero [] h k = refl
  concat-cut_by_bytes zero (p ∷ ps) h k = absurd (omega arith)
  concat-cut_by_bytes (suc fuel) [] h k = refl
  concat-cut_by_bytes (suc fuel) (p ∷ ps) h k = ground (
    arith,
    fill-append (p ∷ ps) 0 0,
    fill_first p ps,
    concat-cut_by_bytes fuel (fill bytes_of size max_bytes (p ∷ ps) 0 0).1,
  )

  abbrev pub IsBatch : List A → Type 0
  IsBatch b =
      (0 < length b) × (length b ≤ size) × ((length b ≡ 1) ⊎ (sum_bytes bytes_of b ≤ max_bytes))

  -- For a positive batch size, each batch that is cut by bytes has a point at least and no more
  -- points than the batch size, and either it is a single point or its bytes are within the
  -- limit.
  pub cut_by_bytes-IsBatch :
      (fuel : ℕ) (ps : List A)
      → 0 < size
      → All IsBatch (cut_by_bytes fuel bytes_of size max_bytes ps)
  unfolding cut_by_bytes
  cut_by_bytes-IsBatch zero ps h = tt
  cut_by_bytes-IsBatch (suc fuel) [] h = tt
  cut_by_bytes-IsBatch (suc fuel) (p ∷ ps) h = (
    ((fill_first p ps h).0, omega (arith, fill_count (p ∷ ps) 0 0), batch_bytes p ps),
    cut_by_bytes-IsBatch fuel (fill bytes_of size max_bytes (p ∷ ps) 0 0).1 h,
  )

  -- Every batch stops where the rest of the points, which the later batches hold, does not fit.
  abbrev pub AllFull : List (List A) → Type 0
  AllFull [] = Unit
  AllFull (b ∷ bs) = IsFull 0 0 b (concat bs) × AllFull bs

  -- For a positive batch size and as much fuel as there are points, each batch that is cut by
  -- bytes ends where the points after it do, or where the next point would exceed the batch size
  -- or the limit of bytes.
  pub cut_by_bytes-AllFull :
      (fuel : ℕ) (ps : List A)
      → 0 < size
      → length ps ≤ fuel
      → AllFull (cut_by_bytes fuel bytes_of size max_bytes ps)
  unfolding cut_by_bytes
  cut_by_bytes-AllFull zero ps h k = tt
  cut_by_bytes-AllFull (suc fuel) [] h k = tt
  cut_by_bytes-AllFull (suc fuel) (p ∷ ps) h k =
      let rest = (fill bytes_of size max_bytes (p ∷ ps) 0 0).1 in
      let shorter : length rest ≤ fuel = omega (arith, fill_first p ps h) in
      (
        subst (IsFull 0 0 _) (sym (concat-cut_by_bytes fuel rest h shorter))
            (fill-IsFull (p ∷ ps) 0 0 (omega arith)),
        cut_by_bytes-AllFull fuel rest h shorter,
      )

module _ {A : Type 0} (size : ℕ) where
  pub concat-cut_by_count :
      (fuel : ℕ) (ps : List A)
      → 0 < size
      → length ps ≤ fuel
      → concat (cut_by_count fuel size ps) ≡ ps
  unfolding cut_by_count
  concat-cut_by_count zero [] h k = refl
  concat-cut_by_count zero (p ∷ ps) h k = absurd (omega arith)
  concat-cut_by_count (suc fuel) [] h k = refl
  concat-cut_by_count (suc fuel) (p ∷ ps) h k =
      ap (λ qs. take size (p ∷ ps) ++ qs)
        (concat-cut_by_count fuel (drop size (p ∷ ps)) h (omega (arith, length-drop size (p ∷ ps))))
      ∙ take-append-drop size (p ∷ ps)

  pub cut_by_count_sizes :
      (fuel : ℕ) (ps : List A)
      → 0 < size
      → All (λ b. (0 < length b) × (length b ≤ size)) (cut_by_count fuel size ps)
  unfolding cut_by_count
  cut_by_count_sizes zero ps h = tt
  cut_by_count_sizes (suc fuel) [] h = tt
  cut_by_count_sizes (suc fuel) (p ∷ ps) h =
      (omega (arith, length-take size (p ∷ ps)), cut_by_count_sizes fuel (drop size (p ∷ ps)) h)
