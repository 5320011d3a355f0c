-- ===== src/Client/Batch/Fleet.antt =====
-- The workers of `upsertBatch` in clientlibs/js/src/client.ts against a server that accepts points:
-- in whatever order they run, together they owe the same number of points.
use vectron.Prelude.{
  ℕ, zero, suc, ◌+◌, ◌-◌, ◌≡◌, ◌≢◌, ◌⊎◌, inl, inr, refl, ap, subst, none, List, [], ◌∷◌, arith,
  length, String, length-append, concat, All, ℤ, ◌==◌, if◌then◌else◌, pos, negsuc, pos_part, pos-+ℤ,
  Outcome, ok, pending,
}
use vectron.Client.Errors.{Platform, Thrown}
use vectron.Client.World.{World}
use vectron.Client.Session.{Client}
use vectron.Client.Calls.{Point}
use vectron.Client.Calls.Validation.{IsValid}
use vectron.Client.Batch.Workers.{
  Progress, running, resolved, rejected, hanging, Worker, sum_resolved, failed_at, run_next, turn,
  turn_at,
}
use vectron.Client.Batch.Sending.{Accepts, upsert-Accepts}

-- The sum is not there yet, or it is this.
abbrev pub ComesTo : Outcome Thrown ℤ → ℕ → Type 0
ComesTo r n = (r ≡ pending) ⊎ (r ≡ ok (pos n))

module _ {F : Type 0} where
  abbrev pub IsSane : Progress → ℤ → List (List (Point F)) → Type 0
  IsSane running total todo = Unit
  IsSane (resolved n) total todo = (n ≡ total) × (todo ≡ [])
  IsSane (rejected e) total todo = ⊥
  IsSane hanging total todo = ⊥

  -- A worker whose batches are all valid and that has met no failure.
  pub record IsSound (c : Client) (v : Worker F) : Type 0 where
    pub counted : v.subtotal ≡ pos (pos_part v.subtotal)
    pub valid : All (All (IsValid c)) v.todo
    pub sane : IsSane v.progress v.subtotal v.todo

  -- The points that a worker has sent or will send.
  abbrev pub owed : Worker F → ℕ
  owed v = pos_part v.subtotal + length (concat v.todo)

  abbrev pub owed_by : List (Worker F) → ℕ
  owed_by [] = 0
  owed_by (v ∷ vs) = owed v + owed_by vs

  -- The turns that a worker still needs.
  abbrev pub left : Worker F → ℕ
  left v = elim v.progress [
    | running ↦ suc (length v.todo)
    | resolved n ↦ 0
    | rejected e ↦ 0
    | hanging ↦ 0
  ]

  -- What a turn does to a sound worker.
  pub record Turned (c : Client) (v v' : Worker F) (w' : World F) : Type 0 where
    pub sound : IsSound c v'
    pub accepts : Accepts w'
    pub same : owed v' ≡ owed v
    pub fewer : left v' ≡ left v - 1

  abbrev pub left_at : ℕ → List (Worker F) → ℕ
  left_at i [] = 0
  left_at zero (v ∷ vs) = left v
  left_at (suc i) (v ∷ vs) = left_at i vs

  fewer_here :
      (v v' : Worker F) (vs : List (Worker F)) (j : ℕ)
      → left v' ≡ left v - 1
      → left_at j (v' ∷ vs) ≡ (if 0 == j then left_at j (v ∷ vs) - 1 else left_at j (v ∷ vs))
  fewer_here v v' vs zero h = h
  fewer_here v v' vs (suc j) h = ground arith

  fewer_there :
      (i : ℕ) (v : Worker F) (vs vs' : List (Worker F)) (j : ℕ)
      → ((k : ℕ) → left_at k vs' ≡ (if i == k then left_at k vs - 1 else left_at k vs))
      → left_at j (v ∷ vs') ≡ (if suc i == j then left_at j (v ∷ vs) - 1 else left_at j (v ∷ vs))
  fewer_there i v vs vs' zero h = ground arith
  fewer_there i v vs vs' (suc j) h = ground (arith, h j)

  failed_now :
      (todo : List (List (Point F))) (total : ℤ) (p : Progress) (vs : List (Worker F))
      → IsSane p total todo
      → failed_at 0 (record { todo = todo; subtotal = total; progress = p } ∷ vs) ≡ none
  unfolding failed_at
  failed_now todo total running vs s = refl
  failed_now todo total (resolved n) vs s = refl
  failed_now todo total (rejected e) vs s = absurd s
  failed_now todo total hanging vs s = absurd s

  sum_cons :
      (todo : List (List (Point F))) (total : ℤ) (p : Progress) (vs : List (Worker F)) (m : ℕ)
      → total ≡ pos (pos_part total)
      → IsSane p total todo
      → ((k : ℕ) → ComesTo (sum_resolved (pos k) vs) (k + owed_by vs))
      → ComesTo
          (sum_resolved (pos m) (record { todo = todo; subtotal = total; progress = p } ∷ vs))
          (m + (pos_part total + length (concat todo) + owed_by vs))
  unfolding sum_resolved
  sum_cons todo total running vs m e s ih = inl refl
  sum_cons todo (negsuc t) (resolved n) vs m e s ih = cc e
  sum_cons (b ∷ bs) total (resolved n) vs m e s ih = cc (s.1)
  sum_cons [] (pos t) (resolved n) vs m e s ih =
      rw (s.0, pos-+ℤ m t)
        (subst (ComesTo (sum_resolved (pos (m + t)) vs)) (omega arith) (ih (m + t)))
  sum_cons todo total (rejected x) vs m e s ih = absurd s
  sum_cons todo total hanging vs m e s ih = absurd s

  pub record TurnedAt (c : Client) (i : ℕ) (vs vs' : List (Worker F)) (w' : World F) : Type 0 where
    pub sound : All (IsSound c) vs'
    pub accepts : Accepts w'
    pub same : owed_by vs' ≡ owed_by vs
    pub fewer : (j : ℕ) → left_at j vs' ≡ (if i == j then left_at j vs - 1 else left_at j vs)

  module _ (pf : Platform) (c : Client) (collection : String) (named : collection ≢ "") where
    run_next-Turned :
        (todo : List (List (Point F))) (n : ℕ) (w : World F)
        → All (All (IsValid c)) todo
        → Accepts w
        → Turned c
            (record { todo = todo; subtotal = pos n; progress = running })
            (run_next pf c collection todo (pos n) w).0
            (run_next pf c collection todo (pos n) w).1
    unfolding run_next
    run_next-Turned [] n w valid accepts = record {
      sound = record { counted = refl; valid = tt; sane = (refl, refl) };
      accepts = accepts;
      same = refl;
      fewer = refl;
    }
    run_next-Turned (b ∷ bs) n w valid accepts =
        let (value, after) = upsert-Accepts pf c collection b w named valid.0 accepts in
        rw (value, pos-+ℤ n (length b))
          (record {
            sound = record { counted = refl; valid = valid.1; sane = tt };
            accepts = after;
            same = omega (arith, length-append b (concat bs));
            fewer = omega arith;
          })

    turn-Turned :
        (todo : List (List (Point F))) (total : ℤ) (p : Progress) (w : World F)
        → IsSound c (record { todo = todo; subtotal = total; progress = p })
        → Accepts w
        → Turned c
            (record { todo = todo; subtotal = total; progress = p })
            (turn pf c collection (record { todo = todo; subtotal = total; progress = p }) w).0
            (turn pf c collection (record { todo = todo; subtotal = total; progress = p }) w).1
    unfolding turn
    turn-Turned todo (pos n) running w s accepts = run_next-Turned todo n w s.valid accepts
    turn-Turned todo (negsuc n) running w s accepts = cc (s.counted)
    turn-Turned todo total (resolved n) w s accepts = record {
      sound = s;
      accepts = accepts;
      same = refl;
      fewer = refl;
    }
    turn-Turned todo total (rejected e) w s accepts = absurd s.sane
    turn-Turned todo total hanging w s accepts = absurd s.sane

    pub turn_at-TurnedAt :
        (i : ℕ) (vs : List (Worker F)) (w : World F)
        → All (IsSound c) vs
        → Accepts w
        → TurnedAt c i vs (turn_at pf c collection i vs w).0 (turn_at pf c collection i vs w).1
    unfolding turn_at
    turn_at-TurnedAt i [] w s accepts = record {
      sound = tt;
      accepts = accepts;
      same = refl;
      fewer = λ j. ground arith;
    }
    turn_at-TurnedAt zero (v ∷ vs) w s accepts =
        let t = turn-Turned v.todo v.subtotal v.progress w s.0 accepts in
        record {
          sound = (t.sound, s.1);
          accepts = t.accepts;
          same = omega (arith, t.same);
          fewer = λ j. fewer_here v (turn pf c collection v w).0 vs j t.fewer;
        }
    turn_at-TurnedAt (suc i) (v ∷ vs) w s accepts =
        let t = turn_at-TurnedAt i vs w s.1 accepts in
        record {
          sound = (s.0, t.sound);
          accepts = t.accepts;
          same = omega (arith, t.same);
          fewer = λ j. fewer_there i v vs (turn_at pf c collection i vs w).0 j t.fewer;
        }

    pub failed_at-none : (i : ℕ) (vs : List (Worker F)) → All (IsSound c) vs → failed_at i vs ≡ none
    unfolding failed_at
    failed_at-none i [] s = refl
    failed_at-none zero (v ∷ vs) s = failed_now v.todo v.subtotal v.progress vs s.0.sane
    failed_at-none (suc i) (v ∷ vs) s = failed_at-none i vs s.1

    pub sum_resolved_sound :
        (m : ℕ) (vs : List (Worker F))
        → All (IsSound c) vs
        → ComesTo (sum_resolved (pos m) vs) (m + owed_by vs)
    unfolding sum_resolved
    sum_resolved_sound m [] s = inr (ap (λ k. ok (pos k)) (omega arith))
    sum_resolved_sound m (v ∷ vs) s =
        sum_cons v.todo v.subtotal v.progress vs m s.0.counted s.0.sane
          (λ k. sum_resolved_sound k vs s.1)
