-- ===== src/Examples/Batches.antt =====
-- `upsertBatch`, `upsert` and the pool of clientlibs/js/src/client.ts on concrete data.
use vectron.Prelude.{
  ℕ, zero, suc, ◌<◌, ◌≡◌, refl, none, some, List, [], ◌∷◌, arith, length, concat, All, pos, ok,
}
use vectron.Client.Batch.{cut_by_bytes, cut_by_count, fill, batches_of, positive_or}
use vectron.Client.Batch.Cut.{IsBatch, AllFull, cut_by_bytes-IsBatch, cut_by_bytes-AllFull}
use vectron.Client.Batch.Workers.{upsert_batch}
use vectron.Client.Batch.Fleet.{ComesTo}
use vectron.Client.Batch.Schedules.{turns_of}
use vectron.Client.Batch.Counts.{
  concat-batches_of, upsert_batch_sequential, upsert_batch_concurrent, upsert_batch_fair,
}
use vectron.Examples.Data.{
  platform, client, world, world-Accepts, two_points, two_points-IsValid, docs_named,
}

abbrev sizes : List ℕ
sizes = 40 ∷ 30 ∷ 90 ∷ 200 ∷ 10 ∷ []

cut_sizes :
    cut_by_bytes 5 (λ n. n) 3 100 sizes ≡ (40 ∷ 30 ∷ []) ∷ (90 ∷ []) ∷ (200 ∷ []) ∷ (10 ∷ []) ∷ []
unfolding cut_by_bytes fill
cut_sizes = refl

cut_counts : cut_by_count 5 2 sizes ≡ (40 ∷ 30 ∷ []) ∷ (90 ∷ 200 ∷ []) ∷ (10 ∷ []) ∷ []
unfolding cut_by_count
cut_counts = refl

concat-batches_of_example : concat (batches_of client 1 two_points) ≡ two_points
concat-batches_of_example = concat-batches_of client 1 two_points (omega arith)

cut_by_bytes-IsBatch_example : All (IsBatch (λ n. n) 3 100) (cut_by_bytes 5 (λ n. n) 3 100 sizes)
cut_by_bytes-IsBatch_example = cut_by_bytes-IsBatch (λ n. n) 3 100 5 sizes (omega arith)

cut_by_bytes-AllFull_example : AllFull (λ n. n) 3 100 (cut_by_bytes 5 (λ n. n) 3 100 sizes)
cut_by_bytes-AllFull_example =
    cut_by_bytes-AllFull (λ n. n) 3 100 5 sizes (omega arith) (omega arith)

upsert_batch_sequential_example :
    (upsert_batch platform client "docs" two_points none none [] world).0 ≡ ok (pos 2)
upsert_batch_sequential_example =
    upsert_batch_sequential platform client "docs" two_points none none [] world docs_named
      two_points-IsValid world-Accepts refl

upsert_batch_concurrent_example :
    ComesTo
      (upsert_batch platform client "docs" two_points
        (some (pos 1))
        (some (pos 2))
        (0 ∷ [])
        world).0
      2
upsert_batch_concurrent_example =
    upsert_batch_concurrent platform client "docs" two_points (some (pos 1)) (some (pos 2)) (0 ∷ [])
      world docs_named two_points-IsValid world-Accepts (omega arith)

abbrev fair_schedule : List ℕ
fair_schedule = 0 ∷ 1 ∷ 0 ∷ 1 ∷ 1 ∷ 0 ∷ []

fair_schedule_turns :
    (j : ℕ)
    → j < positive_or (some (pos 2)) 1
    → length (batches_of client (positive_or (some (pos 1)) 256) two_points)
      < turns_of j fair_schedule
unfolding batches_of cut_by_count
fair_schedule_turns zero h = omega arith
fair_schedule_turns (suc zero) h = omega arith
fair_schedule_turns (suc (suc j)) h = absurd (omega arith)

upsert_batch_fair_example :
    (upsert_batch platform client "docs" two_points
      (some (pos 1))
      (some (pos 2))
      fair_schedule
      world).0
    ≡ ok (pos 2)
upsert_batch_fair_example =
    upsert_batch_fair platform client "docs" two_points (some (pos 1)) (some (pos 2)) fair_schedule
      world docs_named two_points-IsValid world-Accepts (omega arith) fair_schedule_turns
