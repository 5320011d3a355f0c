-- ===== src/Client/Batch/Workers.antt =====
-- The workers of `upsertBatch` in clientlibs/js/src/client.ts, which run side by side, and
-- `upsertBatch` itself.
use vectron.Prelude.{
  String, ℕ, zero, suc, Option, none, some, List, [], ◌∷◌, is_empty, ◌==◌, if◌then◌else◌, ℤ, pos,
  ◌+ℤ◌, Outcome, ok, err, pending,
}
use vectron.Client.Errors.{Platform, Thrown}
use vectron.Client.World.{World, Async}
use vectron.Client.Session.{Client}
use vectron.Client.Calls.{Point, upsert}
use vectron.Client.Batch.{shard, positive_or, batches_of, upsert_all}

-- Where an asynchronous function stands: it waits for its next turn, it has returned or thrown, or
-- it awaits a call that never settles.
pub data Progress : Type 0 where
  running : Progress
  resolved : ℤ → Progress
  rejected : Thrown → Progress
  hanging : Progress

pub record Worker (F : Type 0) : Type 0 where
  pub todo : List (List (Point F))
  pub subtotal : ℤ
  pub progress : Progress

-- The workers, the first rejection that `Promise.all` has seen, and the world.
pub record Fleet (F : Type 0) : Type 0 where
  pub workers : List (Worker F)
  pub failure : Option Thrown
  pub world : World F

module _ {F : Type 0} where
  -- One worker for each of the positions i, i + 1, ... of `k` shards among `n`.
  unfoldable pub workers_from : ℕ → ℕ → ℕ → List (List (Point F)) → List (Worker F)
  workers_from n i zero batches = []
  workers_from n i (suc k) batches =
      record { todo = shard n i batches; subtotal = pos 0; progress = running }
      ∷ workers_from n (suc i) k batches

  -- What `Promise.all` of the workers and the sum of their results come to.
  unfoldable pub sum_resolved : ℤ → List (Worker F) → Outcome Thrown ℤ
  sum_resolved total [] = ok total
  sum_resolved total (v ∷ vs) = elim v.progress [
    | resolved n ↦ sum_resolved (total +ℤ n) vs
    | running ↦ pending
    | rejected e ↦ err e
    | hanging ↦ pending
  ]

  unfoldable pub promise_all : Fleet F → Outcome Thrown ℤ
  promise_all f = elim f.failure [ some e ↦ err e | none ↦ sum_resolved (pos 0) f.workers ]

  -- A worker once its `await this.upsert(...)` has ended so.
  abbrev pub after_batch : Outcome Thrown ℤ → List (List (Point F)) → ℤ → Worker F
  after_batch (ok n) bs total = record { todo = bs; subtotal = total +ℤ n; progress = running }
  after_batch (err e) bs total = record { todo = bs; subtotal = total; progress = rejected e }
  after_batch pending bs total = record { todo = bs; subtotal = total; progress = hanging }

  -- The rejection of the worker at a position, if it has one.
  unfoldable pub failed_at : ℕ → List (Worker F) → Option Thrown
  failed_at i [] = none
  failed_at zero (v ∷ vs) = elim v.progress [
    | rejected e ↦ some e
    | running ↦ none
    | resolved n ↦ none
    | hanging ↦ none
  ]
  failed_at (suc i) (v ∷ vs) = failed_at i vs

  module _ (pf : Platform) (c : Client) (collection : String) where
    unfoldable pub run_next : List (List (Point F)) → ℤ → World F → Worker F × World F
    run_next [] total w = (record { todo = []; subtotal = total; progress = resolved total }, w)
    run_next (b ∷ bs) total w =
        let (r, w₁) = upsert pf c collection b w in (after_batch r bs total, w₁)

    -- One turn of a worker: if it runs, the next batch is upserted, or the subtotal returned.
    unfoldable pub turn : Worker F → World F → Worker F × World F
    unfolding run_next
    turn v w = elim v.progress [
      | running ↦ run_next v.todo v.subtotal w
      | resolved n ↦ (v, w)
      | rejected e ↦ (v, w)
      | hanging ↦ (v, w)
    ]

    unfoldable pub turn_at : ℕ → List (Worker F) → World F → List (Worker F) × World F
    turn_at i [] w = ([], w)
    turn_at zero (v ∷ vs) w = let (v', w₁) = turn v w in (v' ∷ vs, w₁)
    turn_at (suc i) (v ∷ vs) w = let (vs', w₁) = turn_at i vs w in (v ∷ vs', w₁)

    -- The worker at position `i` has a turn; `Promise.all` keeps the first rejection.
    unfoldable pub fleet_turn : ℕ → Fleet F → Fleet F
    fleet_turn i f =
        let (vs, w) = turn_at i f.workers f.world in
        record {
          workers = vs;
          failure = elim f.failure [ some e ↦ some e | none ↦ failed_at i vs ];
          world = w;
        }

    -- The event loop gives the turns in some order.
    unfoldable pub run_fleet : List ℕ → Fleet F → Fleet F
    run_fleet [] f = f
    run_fleet (i ∷ schedule) f = run_fleet schedule (fleet_turn i f)

    unfoldable pub upsert_batch : List (Point F) → Option ℤ → Option ℤ → List ℕ → Async F ℤ
    upsert_batch points batch_size concurrency schedule w =
        let n : ℕ = positive_or concurrency 1 in
        let batches = batches_of c (positive_or batch_size 256) points in
        if is_empty points
        then (ok (pos 0), w)
        else if n == 1
        then upsert_all pf c collection (pos 0) batches w
        else (let f =
              run_fleet schedule
                (record { workers = workers_from n 0 n batches; failure = none; world = w }) in
            (promise_all f, f.world))
