-- ===== src/Client/Retry/Attempts.antt =====
-- What `callWithRetry` of clientlibs/js/src/client.ts does with the outcomes of its attempts.
use Prim.Native.Nat.add
use native.Mathlib.Nat.{add-suc}
use vectron.Prelude.{
  ◌⊎◌, inl, inr, Bool-cases, ◌<◌, ℕ, zero, suc, ◌+◌, ◌≡◌, ap, sym, subst, Bool, true, false, arith,
  ltb_ℤ, pos, max_ℕ, max_ℕ-ge, ◌-◌, Outcome, ok, err, pending,
}
use vectron.Client.Errors.{Platform, Thrown}
use vectron.Client.Options.{Options}
use vectron.Client.Retry.{
  Timers, max_attempts, should_retry, pause, rethrown, retry_loop, call_with_retry,
}

-- A retry is made only below the limit.
pub should_retry_below :
    (pf : Platform) (o : Options) (e : Thrown) (b : Bool) (attempt : ℕ)
    → should_retry pf o e b attempt ≡ true
    → attempt < max_ℕ (max_attempts o) 1
unfolding should_retry
should_retry_below pf o e b attempt h = ground arith

module _ {W A : Type 0} (timers : Timers W) (pf : Platform) (o : Options) (is_write : Bool)
    (fn : W → Outcome Thrown A × W) where
  -- What leaves the client when an attempt is the last.
  abbrev pub translated : Outcome Thrown A → Outcome Thrown A
  translated (ok v) = ok v
  translated (err e) = err (rethrown pf e)
  translated pending = pending

  -- The loop stops at this attempt with this outcome.
  abbrev pub Stops : ℕ → Outcome Thrown A → Type 0
  Stops attempt (ok v) = Unit {0}
  Stops attempt pending = Unit {0}
  Stops attempt (err e) = should_retry pf o e is_write attempt ≡ false

  abbrev pub Retries : ℕ → Outcome Thrown A → Type 0
  Retries attempt (err e) = should_retry pf o e is_write attempt ≡ true
  Retries attempt _ = ⊥

  -- After a retry the test `attempt > maxAttempts` never holds.
  room_left :
      (attempt : ℕ) (r : Outcome Thrown A)
      → Retries attempt r
      → ltb_ℤ (max_attempts o) (pos (suc attempt)) ≡ false
  unfolding should_retry
  room_left attempt (err e) h = ground arith
  room_left attempt (ok v) h = absurd h
  room_left attempt pending h = absurd h

  loop-Stops :
      (fuel attempt : ℕ) (w : W)
      → Stops attempt (fn w).0
      → retry_loop timers pf o (suc fuel) is_write attempt fn w ≡ (translated (fn w).0, (fn w).1)
  unfolding retry_loop
  loop-Stops fuel attempt w h = ground arith

  loop-Retries :
      (fuel attempt : ℕ) (w : W)
      → Retries attempt (fn w).0
      → retry_loop timers pf o (suc fuel) is_write attempt fn w
        ≡ retry_loop timers pf o fuel is_write (suc attempt) fn (pause timers o attempt (fn w).1)
  unfolding retry_loop
  loop-Retries fuel attempt w h = ground (arith, room_left attempt (fn w).0)

  -- The world before the attempt after `n` retries.
  abbrev pub state_at : ℕ → W → W
  state_at zero w = w
  state_at (suc n) w = pause timers o (suc n) (fn (state_at n w)).1

  abbrev pub outcome_at : ℕ → W → Outcome Thrown A
  outcome_at n w = (fn (state_at n w)).0

  -- The first `n` attempts are all retried.
  abbrev pub AllRetried : ℕ → W → Type 0
  AllRetried zero w = Unit {0}
  AllRetried (suc n) w = AllRetried n w × Retries (suc n) (outcome_at n w)

  unroll :
      (n fuel : ℕ) (w : W)
      → AllRetried n w
      → retry_loop timers pf o (n + fuel) is_write 1 fn w
        ≡ retry_loop timers pf o fuel is_write (suc n) fn (state_at n w)
  unroll zero fuel w h = cc (add.zero fuel)
  unroll (suc n) fuel w h = cc (
    add.suc n fuel,
    add-suc n fuel,
    unroll n (suc fuel) w h.0,
    loop-Retries fuel (suc n) (state_at n w) h.1,
  )

  Stops-or_Retries : (attempt : ℕ) (r : Outcome Thrown A) → Stops attempt r ⊎ Retries attempt r
  Stops-or_Retries attempt (ok v) = inl tt
  Stops-or_Retries attempt pending = inl tt
  Stops-or_Retries attempt (err e) = elim (Bool-cases (should_retry pf o e is_write attempt)) [
    | inl t ↦ inr t
    | inr f ↦ inl f
  ]

  Retries-below :
      (attempt : ℕ) (r : Outcome Thrown A) → Retries attempt r → attempt < max_ℕ (max_attempts o) 1
  Retries-below attempt (ok v) h = absurd h
  Retries-below attempt pending h = absurd h
  Retries-below attempt (err e) h = should_retry_below pf o e is_write attempt h

  AllRetried-below : (k : ℕ) (w : W) → AllRetried k w → k < max_ℕ (max_attempts o) 1
  AllRetried-below zero w all = max_ℕ-ge (max_attempts o) 1
  AllRetried-below (suc k) w all = Retries-below (suc k) (outcome_at k w) all.1

  -- What the loop does: the attempt after `n` retries is the last one.
  pub record EndsAfter (n : ℕ) (w : W) : Type 0 where
    pub below : n < max_ℕ (max_attempts o) 1
    pub retried : AllRetried n w
    pub stops : Stops (suc n) (outcome_at n w)

  ends_within : (k : ℕ) (w : W) → ((n : ℕ) × EndsAfter n w) ⊎ AllRetried k w
  ends_within zero w = inr tt
  ends_within (suc k) w = elim (ends_within k w) [
    | inl e ↦ inl e
    | inr all ↦ elim (Stops-or_Retries (suc k) (outcome_at k w)) [
      | inl stop ↦ inl (k, record { below = AllRetried-below k w all; retried = all; stops = stop })
      | inr more ↦ inr (all, more)
    ]
  ]

  run_to :
      (n fuel : ℕ) (w : W)
      → n < fuel
      → AllRetried n w
      → Stops (suc n) (outcome_at n w)
      → retry_loop timers pf o fuel is_write 1 fn w
        ≡ (translated (outcome_at n w), (fn (state_at n w)).1)
  run_to n fuel w below all stop =
      let rest : fuel ≡ n + suc (fuel - suc n) = omega arith in
      cc (
        ap (λ k. retry_loop timers pf o k is_write 1 fn w) rest,
        unroll n (suc (fuel - suc n)) w all,
        loop-Stops (fuel - suc n) (suc n) (state_at n w) stop,
      )

  -- Every run of `callWithRetry`, from any world: there is a number n of attempts, below
  -- `maxAttempts` (or below 1 if that is larger), that all fail with an error to be retried; the
  -- next attempt returns, does not settle, or fails with an error not to be retried; and the
  -- outcome of the call is its outcome, with a gRPC error translated, in the world that it
  -- leaves.
  pub call_with_retry_decided :
      (w : W)
      → (n : ℕ) × EndsAfter n w
        × (call_with_retry timers pf o is_write fn w
            ≡ (translated (outcome_at n w), (fn (state_at n w)).1))
  unfolding call_with_retry
  call_with_retry_decided w = elim (ends_within (max_ℕ (max_attempts o) 1) w) [
    | inr all ↦ absurd (omega (arith, AllRetried-below _ w all))
    | inl (n, e) ↦ (n, e, run_to n _ w e.below e.retried e.stops)
  ]

  -- A first attempt that returns is the whole call.
  pub call_with_retry_returns :
      (w : W) (v : A)
      → (fn w).0 ≡ ok v
      → call_with_retry timers pf o is_write fn w ≡ (ok v, (fn w).1)
  unfolding call_with_retry
  call_with_retry_returns w v h = cc (
    h,
    run_to 0 (max_ℕ (max_attempts o) 1) w (max_ℕ-ge (max_attempts o) 1) tt
        (subst (Stops 1) (sym h) tt),
  )
