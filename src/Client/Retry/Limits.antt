-- ===== src/Client/Retry/Limits.antt =====
-- How often `callWithRetry` of clientlibs/js/src/client.ts runs its function, and which errors it
-- lets through.
use vectron.Prelude.{
  ℕ, zero, suc, ◌+◌, ◌≤◌, ◌≡◌, ap, ◌≢◌, Bool, true, false, arith, ℤ, max_ℕ, Outcome, ok, err,
  pending, refl,
}
use vectron.Client.Errors.{Platform, Thrown, own, service, other}
use vectron.Client.Options.{Options}
use vectron.Client.Retry.{
  Timers, is_truthy, max_attempts, should_retry, compute_backoff_ms, pause, rethrown,
  call_with_retry,
}
use vectron.Client.Retry.Attempts.{
  state_at, outcome_at, translated, Retries, AllRetried, call_with_retry_decided,
}

-- A gRPC error is never handed to the caller as it is.
abbrev pub IsTranslated {ℓ} : {A : Type ℓ} → Outcome Thrown A → Type 0
IsTranslated (err (service e)) = ⊥
IsTranslated _ = Unit

-- A count of calls that sleeping and drawing a random number leave alone.
pub record IsQuiet {W : Type 0} (timers : Timers W) (calls : W → ℕ) : Type 0 where
  pub sleeping : (ms : ℤ) (w : W) → calls (timers.sleep ms w) ≡ calls w
  pub drawing : (w : W) → calls (timers.random w).1 ≡ calls w

module _ {W : Type 0} (timers : Timers W) (o : Options) (calls : W → ℕ) where
  calls-compute_backoff_ms :
      (attempt : ℕ) (w : W)
      → IsQuiet timers calls
      → calls (compute_backoff_ms timers o attempt w).1 ≡ calls w
  unfolding compute_backoff_ms
  calls-compute_backoff_ms attempt w quiet = ground (arith, quiet.drawing w)

  pub calls-pause :
      (attempt : ℕ) (w : W) → IsQuiet timers calls → calls (pause timers o attempt w) ≡ calls w
  unfolding pause
  calls-pause attempt w quiet = cc (
    calls-compute_backoff_ms attempt w quiet,
    quiet.sleeping (compute_backoff_ms timers o attempt w).0
        (compute_backoff_ms timers o attempt w).1,
  )

module _ {W A : Type 0} (timers : Timers W) (pf : Platform) (o : Options) (is_write : Bool)
    (fn : W → Outcome Thrown A × W) where
  module _ (calls : W → ℕ) where
    calls-state_at :
        (n : ℕ) (w : W)
        → IsQuiet timers calls
        → ((v : W) → calls (fn v).1 ≡ suc (calls v))
        → calls (state_at timers pf o is_write fn n w) ≡ calls w + n
    calls-state_at zero w quiet once = omega arith
    calls-state_at (suc n) w quiet once = omega (
      arith,
      calls-pause timers o calls (suc n) (fn (state_at timers pf o is_write fn n w)).1 quiet,
      once (state_at timers pf o is_write fn n w),
      calls-state_at n w quiet once,
    )

    -- If the function makes one call each time it runs, and sleeping and drawing make none, then
    -- `callWithRetry` makes one call at least, and at most as many as `retryMaxAttempts`, or one
    -- if that is larger.
    pub call_with_retry_bounds :
        (w : W)
        → IsQuiet timers calls
        → ((v : W) → calls (fn v).1 ≡ suc (calls v))
        → (calls w + 1 ≤ calls (call_with_retry timers pf o is_write fn w).1)
          × (calls (call_with_retry timers pf o is_write fn w).1
              ≤ calls w + max_ℕ (max_attempts o) 1)
    call_with_retry_bounds w quiet once =
        let (n, ends, run) = call_with_retry_decided timers pf o is_write fn w in
        omega (
          arith,
          ap (λ r. calls r.1) run,
          once (state_at timers pf o is_write fn n w),
          calls-state_at n w quiet once,
          ends.below,
        )

  translated-IsTranslated :
      (r : Outcome Thrown A) → IsTranslated (translated timers pf o is_write fn r)
  unfolding rethrown
  translated-IsTranslated (ok v) = tt
  translated-IsTranslated pending = tt
  translated-IsTranslated (err (own v)) = tt
  translated-IsTranslated (err (service e)) = tt
  translated-IsTranslated (err (other s)) = tt

  -- Whatever the function throws, the call never rejects with a raw gRPC error.
  pub call_with_retry-IsTranslated :
      (w : W) → IsTranslated (call_with_retry timers pf o is_write fn w).0
  call_with_retry-IsTranslated w =
      let (n, ends, run) = call_with_retry_decided timers pf o is_write fn w in
      rw run (translated-IsTranslated (outcome_at timers pf o is_write fn n w))

  -- If no run of the function settles, then neither does the call with retries.
  pub call_with_retry_pends :
      (w : W)
      → ((v : W) → (fn v).0 ≡ pending)
      → (call_with_retry timers pf o is_write fn w).0 ≡ pending
  call_with_retry_pends w pends =
      let (n, ends, run) = call_with_retry_decided timers pf o is_write fn w in
      rw run
        (ap (translated timers pf o is_write fn) (pends (state_at timers pf o is_write fn n w)))

  translated-ne-pending :
      (r : Outcome Thrown A) → r ≢ pending → translated timers pf o is_write fn r ≢ pending
  translated-ne-pending (ok v) h = λ e. cc
  translated-ne-pending (err v) h = λ e. cc
  translated-ne-pending pending h = λ e. h refl

  -- If the function settles in every world, then so does `callWithRetry`.
  pub call_with_retry_settles :
      (w : W)
      → ((v : W) → (fn v).0 ≢ pending)
      → (call_with_retry timers pf o is_write fn w).0 ≢ pending
  call_with_retry_settles w settles =
      let (n, ends, run) = call_with_retry_decided timers pf o is_write fn w in
      rw run (translated-ne-pending _ (settles (state_at timers pf o is_write fn n w)))

module _ {W A : Type 0} (timers : Timers W) (pf : Platform) (o : Options)
    (fn : W → Outcome Thrown A × W) where
  no_write_retry :
      (e : Thrown) (attempt : ℕ)
      → is_truthy o.retry_on_writes ≡ false
      → should_retry pf o e true attempt ≢ true
  unfolding should_retry
  no_write_retry e attempt off h = ground arith

  no_Retries :
      (attempt : ℕ) (r : Outcome Thrown A)
      → is_truthy o.retry_on_writes ≡ false
      → ¬ Retries timers pf o true fn attempt r
  no_Retries attempt (err e) off h = no_write_retry e attempt off h
  no_Retries attempt (ok v) off h = h
  no_Retries attempt pending off h = h

  abbrev RunsTo : ℕ → W → Type 0
  RunsTo n w = call_with_retry timers pf o true fn w ≡ (
    translated timers pf o true fn (outcome_at timers pf o true fn n w),
    (fn (state_at timers pf o true fn n w)).1,
  )

  first_only :
      (n : ℕ) (w : W)
      → is_truthy o.retry_on_writes ≡ false
      → AllRetried timers pf o true fn n w
      → n ≡ 0
  first_only zero w off all = refl
  first_only (suc n) w off all =
      absurd (no_Retries (suc n) (outcome_at timers pf o true fn n w) off all.1)

  -- Unless `retryOnWrites` is set, `callWithRetry` of a write runs its function exactly once and
  -- gives its outcome, with a gRPC error translated.
  pub call_with_retry_write :
      (w : W)
      → is_truthy o.retry_on_writes ≡ false
      → call_with_retry timers pf o true fn w ≡ (translated timers pf o true fn (fn w).0, (fn w).1)
  call_with_retry_write w off =
      let (n, ends, run) = call_with_retry_decided timers pf o true fn w in
      at_first n (first_only n w off ends.retried) run
    where
      at_first : (n : ℕ) → n ≡ 0 → RunsTo n w → RunsTo 0 w
      at_first zero e run = run
      at_first (suc n) e run = absurd (omega arith)

-- What holds of the world before a call with retries, and is kept by every attempt and every pause,
-- holds after it.
module _ {W A : Type 0} (timers : Timers W) (pf : Platform) (o : Options) (is_write : Bool)
    (fn : W → Outcome Thrown A × W) (P : W → Type 0) (attempts : (w : W) → P w → P (fn w).1)
    (pauses : (attempt : ℕ) (w : W) → P w → P (pause timers o attempt w)) where
  state_at_keeps : (n : ℕ) (w : W) → P w → P (state_at timers pf o is_write fn n w)
  state_at_keeps zero w h = h
  state_at_keeps (suc n) w h =
      pauses (suc n) (fn (state_at timers pf o is_write fn n w)).1
        (attempts (state_at timers pf o is_write fn n w) (state_at_keeps n w h))

  pub call_with_retry_keeps : (w : W) → P w → P (call_with_retry timers pf o is_write fn w).1
  call_with_retry_keeps w h =
      let (n, ends, run) = call_with_retry_decided timers pf o is_write fn w in
      rw run (attempts (state_at timers pf o is_write fn n w) (state_at_keeps n w h))
