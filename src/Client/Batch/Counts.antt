-- ===== src/Client/Batch/Counts.antt =====
-- What `upsertBatch` of clientlibs/js/src/client.ts returns when the server accepts the points.
use vectron.Prelude.{
  ℕ, zero, suc, ◌≤◌, ◌<◌, ◌≡◌, ◌≢◌, ◌∙◌, refl, sym, ap, subst, true, false, Bool-cases, inl, inr,
  Option, none, List, [], ◌∷◌, arith, String, All, ◌==◌, ==_iff, ltb, ltb_iff, is_empty, pos, ℤ,
  length, length-append, concat, ok, or_else, pos_part,
}
use vectron.Client.Errors.{Platform}
use vectron.Client.World.{World}
use vectron.Client.Session.{Client}
use vectron.Client.Calls.{Point}
use vectron.Client.Calls.Validation.{IsValid}
use vectron.Client.Batch.{shard_from, shard, positive_or, batches_of, estimate_point_bytes}
use vectron.Client.Batch.Cut.{concat-cut_by_bytes, concat-cut_by_count}
use vectron.Client.Batch.Each.{All-concat, All-shard_from, length-shard_from}
use vectron.Client.Batch.Shards.{total, total_of_shards, total_of_shards-eq-total}
use vectron.Client.Batch.Workers.{Fleet, workers_from, promise_all, run_fleet, upsert_batch}
use vectron.Client.Batch.Sending.{Accepts, upsert_all-Accepts}
use vectron.Client.Batch.Fleet.{IsSound, owed_by, left_at, ComesTo}
use vectron.Client.Batch.Schedules.{
  turns_of, IsHealthy, run_fleet-Ran, promise_all-ComesTo, promise_all_done,
}

positive_or_pos : (z : Option ℤ) (n : ℕ) → 0 < n → 0 < positive_or z n
positive_or_pos z n h = ground arith

not_below : (j n : ℕ) → ltb j n ≡ false → n ≤ j
not_below j n h = ground arith

not_one : (n : ℕ) → n ≢ 1 → (n == 1) ≡ false
not_one n h = ground arith

empty_length {ℓ} : {A : Type ℓ} (xs : List A) → is_empty xs ≡ true → length xs ≡ 0
empty_length [] h = refl
empty_length (x ∷ xs) h = cc

module _ {F : Type 0} where
  -- For a positive batch size, the batches of `upsertBatch`, by bytes or by count, one behind the
  -- other, are the points.
  pub concat-batches_of :
      (c : Client) (size : ℕ) (points : List (Point F))
      → 0 < size
      → concat (batches_of c size points) ≡ points
  unfolding batches_of
  concat-batches_of c size points h = ground (
    arith,
    concat-cut_by_bytes estimate_point_bytes size
        (pos_part (or_else c.options.max_batch_bytes (pos 0))) (length points) points,
    concat-cut_by_count size (length points) points,
  )

  batches-IsValid :
      (c : Client) (size : ℕ) (points : List (Point F))
      → 0 < size
      → All (IsValid c) points
      → All (All (IsValid c)) (batches_of c size points)
  batches-IsValid c size points h valid =
      All-concat (IsValid c) (batches_of c size points)
        (subst (All (IsValid c)) (sym (concat-batches_of c size points h)) valid)

  total-eq-length : (bs : List (List (Point F))) → total length bs ≡ length (concat bs)
  total-eq-length [] = refl
  total-eq-length (b ∷ bs) = omega (arith, total-eq-length bs, length-append b (concat bs))

  module _ (c : Client) (bs : List (List (Point F))) (n : ℕ) where
    workers_from-IsSound :
        (i k : ℕ) → All (All (IsValid c)) bs → All (IsSound c) (workers_from n i k bs)
    unfolding workers_from shard
    workers_from-IsSound i zero v = tt
    workers_from-IsSound i (suc k) v = (
      record { counted = refl; valid = All-shard_from (All (IsValid c)) n i 0 bs v; sane = tt },
      workers_from-IsSound (suc i) k v,
    )

    owed_by-workers_from :
        (i k : ℕ) → owed_by (workers_from n i k bs) ≡ total_of_shards length n i k 0 bs
    unfolding workers_from shard
    owed_by-workers_from i zero = refl
    owed_by-workers_from i (suc k) =
        omega (arith, owed_by-workers_from (suc i) k, total-eq-length (shard_from n i 0 bs))

    left_at-workers_from : (i k j : ℕ) → left_at j (workers_from n i k bs) ≤ suc (length bs)
    unfolding workers_from shard
    left_at-workers_from i zero j = omega arith
    left_at-workers_from i (suc k) zero =
        omega (arith, length-shard_from (All (IsValid c)) n i 0 bs)
    left_at-workers_from i (suc k) (suc j) = left_at-workers_from (suc i) k j

    left_at_beyond : (i k j : ℕ) → k ≤ j → left_at j (workers_from n i k bs) ≡ 0
    unfolding workers_from
    left_at_beyond i zero j h = refl
    left_at_beyond i (suc k) zero h = absurd (omega arith)
    left_at_beyond i (suc k) (suc j) h = left_at_beyond (suc i) k j (omega arith)

  module _ (pf : Platform) (c : Client) (collection : String) (points : List (Point F))
      (batch_size concurrency : Option ℤ) (schedule : List ℕ) (w : World F) where
    batches : List (List (Point F))
    batches = batches_of c (positive_or batch_size 256) points

    -- The cut batches are valid, and hold as many points as there are.
    batches_each-IsValid : All (IsValid c) points → All (All (IsValid c)) batches
    unfolding batches
    batches_each-IsValid valid =
        batches-IsValid c (positive_or batch_size 256) points
          (positive_or_pos batch_size 256 (omega arith)) valid

    batches_count : length (concat batches) ≡ length points
    unfolding batches
    batches_count = ap length (
        concat-batches_of c (positive_or batch_size 256) points
          (positive_or_pos batch_size 256 (omega arith)))

    no_points : is_empty points ≡ true → length points ≡ 0
    no_points h = empty_length points h

    -- For a named collection, valid points, a server that answers each upsert with the number of
    -- its points, and one worker, `upsertBatch` returns the number of the points.
    pub upsert_batch_sequential :
        collection ≢ ""
        → All (IsValid c) points
        → Accepts w
        → positive_or concurrency 1 ≡ 1
        → (upsert_batch pf c collection points batch_size concurrency schedule w).0
          ≡ ok (pos (length points))
    unfolding upsert_batch batches
    upsert_batch_sequential named valid accepts one = elim (Bool-cases (is_empty points)) [
      | inl empty ↦ rw empty (ap (λ k. ok (pos k)) (sym (no_points empty)))
      | inr filled ↦
          rw (filled, (==_iff (positive_or concurrency 1) 1).1 one)
            ((upsert_all-Accepts pf c collection batches 0 w named (batches_each-IsValid valid)
                accepts).0
              ∙ ap (λ k. ok (pos k)) (omega (arith, batches_count)))
    ]

    n : ℕ
    n = positive_or concurrency 1

    start_fleet : Fleet F
    unfolding n batches
    start_fleet = record { workers = workers_from n 0 n batches; failure = none; world = w }

    start-IsHealthy : All (IsValid c) points → Accepts w → IsHealthy c start_fleet
    unfolding start_fleet
    start-IsHealthy valid accepts = record {
      fine = refl;
      sound = workers_from-IsSound c batches n 0 n (batches_each-IsValid valid);
      accepts = accepts;
    }

    owed_by-start : owed_by start_fleet.workers ≡ length points
    unfolding start_fleet n
    owed_by-start =
        owed_by-workers_from c batches n 0 n
        ∙ total_of_shards-eq-total length n 0 batches (positive_or_pos concurrency 1 (omega arith))
        ∙ total-eq-length batches
        ∙ batches_count

    end_fleet : Fleet F
    end_fleet = run_fleet pf c collection schedule start_fleet

    fleet_ComesTo :
        collection ≢ ""
        → All (IsValid c) points
        → Accepts w
        → ComesTo (promise_all end_fleet) (length points)
    unfolding end_fleet
    fleet_ComesTo named valid accepts =
        let r =
          run_fleet-Ran pf c collection named schedule start_fleet
            (start-IsHealthy valid accepts) in
        subst (ComesTo (promise_all end_fleet)) (r.same ∙ owed_by-start)
          (promise_all-ComesTo pf c collection named end_fleet r.healthy)

    -- No worker needs more turns than a fair schedule gives it.
    needed :
        (j : ℕ)
        → ((i : ℕ) → i < n → length batches < turns_of i schedule)
        → left_at j start_fleet.workers ≤ turns_of j schedule
    unfolding start_fleet
    needed j fair = elim (Bool-cases (ltb j n)) [
      | inl inside ↦
          omega (arith, left_at-workers_from c batches n 0 n j, fair j ((ltb_iff j n).0 inside))
      | inr outside ↦ omega (arith, left_at_beyond c batches n 0 n j (not_below j n outside))
    ]

    fleet_done :
        collection ≢ ""
        → All (IsValid c) points
        → Accepts w
        → ((j : ℕ) → j < n → length batches < turns_of j schedule)
        → promise_all end_fleet ≡ ok (pos (length points))
    unfolding end_fleet
    fleet_done named valid accepts fair =
        let r =
          run_fleet-Ran pf c collection named schedule start_fleet
            (start-IsHealthy valid accepts) in
        promise_all_done c end_fleet r.healthy (λ j. omega (arith, r.fewer j, needed j fair))
        ∙ ap (λ k. ok (pos k)) (r.same ∙ owed_by-start)

    -- For a named collection, valid points, a server that answers each upsert with the number of
    -- its points, and a number of workers other than one: under any schedule `upsertBatch` has
    -- not settled, or returns the number of the points.
    pub upsert_batch_concurrent :
        collection ≢ ""
        → All (IsValid c) points
        → Accepts w
        → positive_or concurrency 1 ≢ 1
        → ComesTo
            (upsert_batch pf c collection points batch_size concurrency schedule w).0
            (length points)
    unfolding upsert_batch end_fleet start_fleet n batches
    upsert_batch_concurrent named valid accepts several = elim (Bool-cases (is_empty points)) [
      | inl empty ↦ rw empty (inr (ap (λ k. ok (pos k)) (sym (no_points empty))))
      | inr filled ↦ rw (filled, not_one n several) (fleet_ComesTo named valid accepts)
    ]

    -- For a named collection, valid points, a server that answers each upsert with the number of
    -- its points, and a number of workers other than one: if the schedule gives every worker more
    -- turns than there are batches, `upsertBatch` returns the number of the points.
    pub upsert_batch_fair :
        collection ≢ ""
        → All (IsValid c) points
        → Accepts w
        → positive_or concurrency 1 ≢ 1
        → ((j : ℕ)
            → j < positive_or concurrency 1
            → length (batches_of c (positive_or batch_size 256) points) < turns_of j schedule)
        → (upsert_batch pf c collection points batch_size concurrency schedule w).0
          ≡ ok (pos (length points))
    unfolding upsert_batch end_fleet start_fleet n batches
    upsert_batch_fair named valid accepts several fair = elim (Bool-cases (is_empty points)) [
      | inl empty ↦ rw empty (ap (λ k. ok (pos k)) (sym (no_points empty)))
      | inr filled ↦ rw (filled, not_one n several) (fleet_done named valid accepts fair)
    ]
