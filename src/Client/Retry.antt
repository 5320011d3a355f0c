-- ===== src/Client/Retry.antt =====
-- Retries of clientlibs/js/src/client.ts: `getRetryableCodes`, `shouldRetry`, `computeBackoffMs`
-- and `callWithRetry`, over any state `W` of the world in which an attempt is made.
pub mod Backoff
pub mod Attempts
pub mod Limits
use vectron.Prelude.{
  ℕ, zero, suc, ◌+◌, ◌*◌, ◌/◌, Bool, true, false, not, ◌&&◌, ◌||◌, Option, none, some, List, [],
  ◌∷◌, ltb, ◌==◌, if◌then◌else◌, or_else, ℤ, pos, negsuc, sub_ℕ, ◌+ℤ◌, ◌*ℤ◌, ltb_ℤ, leb_ℤ, is_zero,
  max_ℕ, floor_div, Outcome, ok, err, pending,
}
use vectron.Client.Errors.{
  Platform, StatusName, unavailable, deadline_exceeded, resource_exhausted, Thrown, own, service,
  other, ServiceError, handle_error,
}
use vectron.Client.Options.{Options}

-- What the client asks of the runtime: `setTimeout`, and `Math.random` in thousandths.
pub record Timers (W : Type 0) : Type 0 where
  pub sleep : ℤ → W → W
  pub random : W → ℕ × W

-- A flag that may be `undefined`, as a condition.
abbrev pub is_truthy : Option Bool → Bool
is_truthy none = false
is_truthy (some b) = b

-- `codes.includes(code)`
abbrev pub includes : List ℕ → ℕ → Bool
includes [] c = false
includes (x ∷ xs) c = x == c || includes xs c

abbrev pub max_attempts : Options → ℤ
max_attempts o = or_else o.retry_max_attempts (pos 1)

unfoldable pub get_retryable_codes : Platform → Options → List ℕ
get_retryable_codes pf o =
    let fallback : List ℕ =
      pf.number unavailable ∷ pf.number deadline_exceeded ∷ pf.number resource_exhausted ∷ [] in
    elim o.retryable_status_codes [ none ↦ fallback | some [] ↦ fallback | some (c ∷ cs) ↦ c ∷ cs ]

abbrev has_retryable_code : Platform → Options → Thrown → Bool
has_retryable_code pf o (own v) = false
has_retryable_code pf o (other s) = false
has_retryable_code pf o (service e) = includes (get_retryable_codes pf o) e.code

unfoldable pub should_retry : Platform → Options → Thrown → Bool → ℕ → Bool
should_retry pf o e is_write attempt =
    if leb_ℤ (max_attempts o) (pos 1) || leb_ℤ (max_attempts o) (pos attempt)
    then false
    else if is_write && not (is_truthy o.retry_on_writes)
    then false
    else has_retryable_code pf o e

-- The cap, if it is set and the backoff is above it.
unfoldable pub over_cap : Option ℤ → ℕ → Option ℤ
over_cap none backoff = none
over_cap (some cap) backoff =
    if is_zero cap then none else if ltb_ℤ cap (pos backoff) then some cap else none

-- The loop of `computeBackoffMs`, by the rounds left; the multiplier is in thousandths.
unfoldable pub backoff_rounds : Option ℤ → ℕ → ℕ → ℕ → ℤ
backoff_rounds cap multiplier zero backoff = pos backoff
backoff_rounds cap multiplier (suc n) backoff = elim (over_cap cap (backoff * multiplier / 1000)) [
  | some c ↦ c
  | none ↦ backoff_rounds cap multiplier n (backoff * multiplier / 1000)
]

-- backoff * (1 + (2 * draw - 1) * jitter), rounded down, and 0 at least.
unfoldable pub jittered : ℤ → ℤ → ℕ → ℤ
jittered backoff jitter draw =
    pos (max_ℕ (floor_div (backoff *ℤ (pos 1000000 +ℤ sub_ℕ (2 * draw) 1000 *ℤ jitter)) 1000000) 0)

abbrev pub initial_backoff : Options → ℕ
initial_backoff o = max_ℕ (or_else o.retry_initial_backoff_ms (pos 100)) 1

abbrev pub multiplier_of : Options → ℕ
multiplier_of o = max_ℕ (or_else o.retry_backoff_multiplier (pos 2000)) 2000

abbrev pub rounds_before : ℕ → ℕ
rounds_before zero = 0
rounds_before (suc n) = n

-- The backoff without its jitter.
unfoldable pub plain_backoff : Options → ℕ → ℤ
plain_backoff o attempt =
    backoff_rounds o.retry_max_backoff_ms (multiplier_of o) (rounds_before attempt)
      (initial_backoff o)

-- How an error leaves the client: its own errors and values without a code as they are.
unfoldable pub rethrown : Platform → Thrown → Thrown
rethrown pf (own v) = own v
rethrown pf (service e) = own (handle_error pf e)
rethrown pf (other s) = other s

module _ {W : Type 0} (timers : Timers W) where
  unfoldable pub compute_backoff_ms : Options → ℕ → W → ℤ × W
  compute_backoff_ms o attempt w =
      let jitter : ℤ = or_else o.retry_jitter (pos 0) in
      if ltb_ℤ (pos 0) jitter
      then (let (draw, w') = timers.random w in
          (jittered (plain_backoff o attempt) jitter draw, w'))
      else (plain_backoff o attempt, w)

  -- `await this.sleep(this.computeBackoffMs(attempt))`
  unfoldable pub pause : Options → ℕ → W → W
  pause o attempt w = let (ms, w') = compute_backoff_ms o attempt w in timers.sleep ms w'

module _ {W A : Type 0} (timers : Timers W) (pf : Platform) (o : Options) where
  -- The `while (true)` loop. When the fuel has run out the call has not settled.
  unfoldable pub retry_loop : ℕ → Bool → ℕ → (W → Outcome Thrown A × W) → W → Outcome Thrown A × W
  retry_loop zero is_write attempt fn w = (pending, w)
  retry_loop (suc fuel) is_write attempt fn w =
      let (r, w₁) = fn w in
      elim r [
        | ok v ↦ (ok v, w₁)
        | pending ↦ (pending, w₁)
        | err e ↦ elim (should_retry pf o e is_write attempt) [
          | false ↦ (err (rethrown pf e), w₁)
          | true ↦ elim (ltb_ℤ (max_attempts o) (pos (suc attempt))) [
            | true ↦ (err (rethrown pf e), pause timers o attempt w₁)
            | false ↦ retry_loop fuel is_write (suc attempt) fn (pause timers o attempt w₁)
          ]
        ]
      ]

  -- As many rounds as the attempts allowed, and one at least.
  unfoldable pub call_with_retry : Bool → (W → Outcome Thrown A × W) → W → Outcome Thrown A × W
  call_with_retry is_write fn w = retry_loop (max_ℕ (max_attempts o) 1) is_write 1 fn w
