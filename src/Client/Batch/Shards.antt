-- ===== src/Client/Batch/Shards.antt =====
-- The shards of `upsertBatch` in clientlibs/js/src/client.ts together hold every batch once.
use vectron.Prelude.{
  ℕ, zero, suc, ◌+◌, ◌%◌, ◌<◌, ◌≡◌, refl, ◌&&◌, List, [], ◌∷◌, arith, leb, ltb, if◌then◌else◌,
}
use native.Mathlib.Nat.{mod-lt}
use vectron.Client.Batch.{shard_from}

module _ {A : Type 0} (weight : A → ℕ) where
  -- The weight of a list of batches.
  abbrev pub total : List A → ℕ
  total [] = 0
  total (b ∷ bs) = weight b + total bs

  -- The weight of `k` shards from position `i` on.
  abbrev pub total_of_shards : ℕ → ℕ → ℕ → ℕ → List A → ℕ
  total_of_shards n i zero idx bs = 0
  total_of_shards n i (suc k) idx bs =
      total (shard_from n i idx bs) + total_of_shards n (suc i) k idx bs

  total_of_shards_cons :
      (n i k idx : ℕ) (b : A) (bs : List A)
      → total_of_shards n i k idx (b ∷ bs)
        ≡ (if leb i (idx % n) && ltb (idx % n) (i + k) then weight b else 0)
          + total_of_shards n i k (suc idx) bs
  unfolding shard_from
  total_of_shards_cons n i zero idx b bs = ground arith
  total_of_shards_cons n i (suc k) idx b bs =
      ground (arith, total_of_shards_cons n (suc i) k idx b bs)

  total_of_shards_empty : (n i k idx : ℕ) → total_of_shards n i k idx [] ≡ 0
  unfolding shard_from
  total_of_shards_empty n i zero idx = refl
  total_of_shards_empty n i (suc k) idx = omega (arith, total_of_shards_empty n (suc i) k idx)

  -- For a positive number of workers and any weight of a batch, the shards of all workers
  -- together weigh as much as all batches.
  pub total_of_shards-eq-total :
      (n idx : ℕ) (bs : List A) → 0 < n → total_of_shards n 0 n idx bs ≡ total bs
  total_of_shards-eq-total n idx [] h = total_of_shards_empty n 0 n idx
  total_of_shards-eq-total n idx (b ∷ bs) h = ground (
    arith,
    total_of_shards_cons n 0 n idx b bs,
    total_of_shards-eq-total n (suc idx) bs h,
    mod-lt idx h,
  )
