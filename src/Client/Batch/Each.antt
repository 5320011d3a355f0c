-- ===== src/Client/Batch/Each.antt =====
-- What holds of every point holds in every batch and shard that `upsertBatch` of
-- clientlibs/js/src/client.ts makes of them.
use vectron.Prelude.{
  ℕ, suc, ◌%◌, ◌≤◌, Bool-cases, inl, inr, List, [], ◌∷◌, ◌++◌, arith, All, ◌==◌, length, concat,
}
use vectron.Client.Batch.{shard_from}

module _ {A : Type 0} (P : A → Type 0) where
  All-append : (xs ys : List A) → All P (xs ++ ys) → All P xs × All P ys
  All-append [] ys h = (tt, h)
  All-append (x ∷ xs) ys h = let (a, b) = All-append xs ys h.1 in ((h.0, a), b)

  pub All-concat : (xss : List (List A)) → All P (concat xss) → All (All P) xss
  All-concat [] h = tt
  All-concat (xs ∷ xss) h = let (a, b) = All-append xs (concat xss) h in (a, All-concat xss b)

  pub All-shard_from : (n i idx : ℕ) (xs : List A) → All P xs → All P (shard_from n i idx xs)
  unfolding shard_from
  All-shard_from n i idx [] h = tt
  All-shard_from n i idx (x ∷ xs) h = elim (Bool-cases (idx % n == i)) [
    | inl t ↦ rw t (h.0, All-shard_from n i (suc idx) xs h.1)
    | inr f ↦ rw f (All-shard_from n i (suc idx) xs h.1)
  ]

  pub length-shard_from : (n i idx : ℕ) (xs : List A) → length (shard_from n i idx xs) ≤ length xs
  unfolding shard_from
  length-shard_from n i idx [] = omega arith
  length-shard_from n i idx (x ∷ xs) = ground (arith, length-shard_from n i (suc idx) xs)
