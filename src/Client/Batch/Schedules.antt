-- ===== src/Client/Batch/Schedules.antt =====
-- A schedule of the workers of `upsertBatch` in clientlibs/js/src/client.ts, from start to end.
use vectron.Prelude.{
  ℕ, suc, ◌+◌, ◌-◌, ◌≡◌, ◌≢◌, ◌∙◌, refl, subst, none, List, [], ◌∷◌, arith, String, All, ◌==◌,
  if◌then◌else◌, pos, ok, length, concat, ℤ, ap, negsuc, pos_part, pos-+ℤ,
}
use vectron.Client.Errors.{Platform}
use vectron.Client.Session.{Client}
use vectron.Client.Calls.{Point}
use vectron.Client.Batch.Workers.{
  Progress, running, resolved, rejected, hanging, Worker, Fleet, sum_resolved, promise_all, turn_at,
  fleet_turn, run_fleet,
}
use vectron.Client.Batch.Sending.{Accepts}
use vectron.Client.Batch.Fleet.{
  IsSane, IsSound, owed_by, left, left_at, ComesTo, turn_at-TurnedAt, failed_at-none,
  sum_resolved_sound,
}

-- How often a worker has a turn.
abbrev pub turns_of : ℕ → List ℕ → ℕ
turns_of j [] = 0
turns_of j (i ∷ schedule) = (if i == j then 1 else 0) + turns_of j schedule

module _ {F : Type 0} where
  -- No failure, sound workers, and a server that still accepts.
  pub record IsHealthy (c : Client) (f : Fleet F) : Type 0 where
    pub fine : f.failure ≡ none
    pub sound : All (IsSound c) f.workers
    pub accepts : Accepts f.world

  -- What a schedule does to a healthy fleet.
  pub record Ran (c : Client) (schedule : List ℕ) (f g : Fleet F) : Type 0 where
    pub healthy : IsHealthy c g
    pub same : owed_by g.workers ≡ owed_by f.workers
    pub fewer : (j : ℕ) → left_at j g.workers ≡ left_at j f.workers - turns_of j schedule

  module _ (pf : Platform) (c : Client) (collection : String) (named : collection ≢ "") where
    fleet_turn-IsHealthy :
        (i : ℕ) (f : Fleet F) → IsHealthy c f → IsHealthy c (fleet_turn pf c collection i f)
    unfolding fleet_turn
    fleet_turn-IsHealthy i f h =
        let t = turn_at-TurnedAt pf c collection named i f.workers f.world h.sound h.accepts in
        record {
          fine = rw h.fine (
              failed_at-none pf c collection named i (turn_at pf c collection i f.workers f.world).0
                t.sound);
          sound = t.sound;
          accepts = t.accepts;
        }

    owed_by-fleet_turn :
        (i : ℕ) (f : Fleet F)
        → IsHealthy c f
        → owed_by (fleet_turn pf c collection i f).workers ≡ owed_by f.workers
    unfolding fleet_turn
    owed_by-fleet_turn i f h =
        (turn_at-TurnedAt pf c collection named i f.workers f.world h.sound h.accepts).same

    left_at-fleet_turn :
        (i j : ℕ) (f : Fleet F)
        → IsHealthy c f
        → left_at j (fleet_turn pf c collection i f).workers
          ≡ (if i == j then left_at j f.workers - 1 else left_at j f.workers)
    unfolding fleet_turn
    left_at-fleet_turn i j f h =
        (turn_at-TurnedAt pf c collection named i f.workers f.world h.sound h.accepts).fewer j

    pub run_fleet-Ran :
        (schedule : List ℕ) (f : Fleet F)
        → IsHealthy c f
        → Ran c schedule f (run_fleet pf c collection schedule f)
    unfolding run_fleet
    run_fleet-Ran [] f h = record { healthy = h; same = refl; fewer = λ j. omega arith }
    run_fleet-Ran (i ∷ schedule) f h =
        let r =
          run_fleet-Ran schedule (fleet_turn pf c collection i f) (fleet_turn-IsHealthy i f h) in
        record {
          healthy = r.healthy;
          same = r.same ∙ owed_by-fleet_turn i f h;
          fewer = λ j. ground (arith, r.fewer j, left_at-fleet_turn i j f h);
        }

    pub promise_all-ComesTo :
        (f : Fleet F) → IsHealthy c f → ComesTo (promise_all f) (owed_by f.workers)
    unfolding promise_all
    promise_all-ComesTo f h = rw h.fine (
        subst (ComesTo (sum_resolved (pos 0) f.workers)) (omega arith)
          (sum_resolved_sound pf c collection named 0 f.workers h.sound))

  done_cons :
      (todo : List (List (Point F))) (total : ℤ) (p : Progress) (vs : List (Worker F)) (m : ℕ)
      → total ≡ pos (pos_part total)
      → IsSane p total todo
      → left (record { todo = todo; subtotal = total; progress = p }) ≡ 0
      → ((k : ℕ) → sum_resolved (pos k) vs ≡ ok (pos (k + owed_by vs)))
      → sum_resolved (pos m) (record { todo = todo; subtotal = total; progress = p } ∷ vs)
        ≡ ok (pos (m + (pos_part total + length (concat todo) + owed_by vs)))
  unfolding sum_resolved
  done_cons todo total running vs m e s h ih = absurd (omega arith)
  done_cons todo (negsuc t) (resolved n) vs m e s h ih = cc e
  done_cons (b ∷ bs) total (resolved n) vs m e s h ih = cc (s.1)
  done_cons [] (pos t) (resolved n) vs m e s h ih =
      rw (s.0, pos-+ℤ m t) (ih (m + t) ∙ ap (λ k. ok (pos k)) (omega arith))
  done_cons todo total (rejected x) vs m e s h ih = absurd s
  done_cons todo total hanging vs m e s h ih = absurd s

  -- When no worker needs a turn, the sum is there.
  pub sum_resolved_done :
      (c : Client) (m : ℕ) (vs : List (Worker F))
      → All (IsSound c) vs
      → ((j : ℕ) → left_at j vs ≡ 0)
      → sum_resolved (pos m) vs ≡ ok (pos (m + owed_by vs))
  unfolding sum_resolved
  sum_resolved_done c m [] s h = ap (λ k. ok (pos k)) (omega arith)
  sum_resolved_done c m (v ∷ vs) s h =
      done_cons v.todo v.subtotal v.progress vs m s.0.counted s.0.sane (h 0)
        (λ k. sum_resolved_done c k vs s.1 (λ j. h (suc j)))

  pub promise_all_done :
      (c : Client) (f : Fleet F)
      → IsHealthy c f
      → ((j : ℕ) → left_at j f.workers ≡ 0)
      → promise_all f ≡ ok (pos (owed_by f.workers))
  unfolding promise_all
  promise_all_done c f h done =
      rw h.fine (sum_resolved_done c 0 f.workers h.sound done ∙ ap (λ k. ok (pos k)) (omega arith))
