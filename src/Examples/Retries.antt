-- ===== src/Examples/Retries.antt =====
-- Retries, backoffs and hedged reads of clientlibs/js/src/client.ts on concrete data.
use vectron.Prelude.{
  ℕ, zero, suc, ◌+◌, ◌*◌, ◌≤◌, ◌≡◌, refl, true, false, arith, max, pos_part, Outcome, ok, err,
  pending, ◌≢◌, ◌↔◌,
}
use vectron.Client.Errors.{
  Thrown, service, handle_error, not_found, not_found_error, vectron_error, new_vectron_error,
  ServiceError,
}
use vectron.Client.Errors.Table.{message_for, handle_error_class}
use vectron.Client.Options.{default_options}
use vectron.Client.Retry.{
  Timers, retry_loop, should_retry, get_retryable_codes, pause, compute_backoff_ms, initial_backoff,
  call_with_retry,
}
use vectron.Client.Retry.Backoff.{compute_backoff_ms-le}
use vectron.Client.Retry.Attempts.{
  EndsAfter, translated, outcome_at, state_at, call_with_retry_decided,
}
use vectron.Client.Retry.Limits.{IsQuiet, call_with_retry_settles}
use vectron.Client.Hedge.{Race, timer_then_second, start, run_ends, hedged}
use vectron.Client.Hedge.Settling.{
  in_order, IsCoherent, here, next, Races-settled, hedged-eq-first_success,
}
use vectron.Client.World.{Async}
use vectron.Client.Operations.Hangs.{call_read_hangs}
use vectron.Client.Session.{call_read}
use vectron.Examples.Data.{platform, hedging_client, unavailable_error, world}

-- A function that fails twice and then returns, and the number of its calls.
abbrev third_time : ℕ → Outcome Thrown ℕ × ℕ
third_time zero = (err (service unavailable_error), 1)
third_time (suc zero) = (err (service unavailable_error), 2)
third_time (suc (suc k)) = (ok 7, suc (suc (suc k)))

abbrev counting : Timers ℕ
counting = record { sleep = λ ms k. k; random = λ k. (500, k) }

third_time_returns :
    call_with_retry counting platform default_options false third_time 0 ≡ (ok 7, 3)
unfolding call_with_retry retry_loop should_retry get_retryable_codes pause compute_backoff_ms
third_time_returns = refl

call_with_retry_decided_example :
    (n : ℕ) × EndsAfter counting platform default_options false third_time n 0
    × (call_with_retry counting platform default_options false third_time 0 ≡ (
      translated counting platform default_options false third_time
          (outcome_at counting platform default_options false third_time n 0),
      (third_time (state_at counting platform default_options false third_time n 0)).1,
    ))
call_with_retry_decided_example =
    call_with_retry_decided counting platform default_options false third_time 0

third_time_counts : (v : ℕ) → (third_time v).1 ≡ suc v
third_time_counts zero = refl
third_time_counts (suc zero) = refl
third_time_counts (suc (suc k)) = refl

third_time_settles : (v : ℕ) → (third_time v).0 ≢ pending
third_time_settles zero = λ e. cc e
third_time_settles (suc zero) = λ e. cc e
third_time_settles (suc (suc k)) = λ e. cc e

counting-IsQuiet : IsQuiet counting (λ k. k)
counting-IsQuiet = record { sleeping = λ ms w. refl; drawing = λ w. refl }

call_with_retry_settles_example :
    (call_with_retry counting platform default_options false third_time 0).0 ≢ pending
call_with_retry_settles_example =
    call_with_retry_settles counting platform default_options false third_time 0 third_time_settles

compute_backoff_ms-le_example :
    1000 * pos_part (compute_backoff_ms counting default_options 3 0).0
    ≤ max (initial_backoff default_options) 2000 * (1000 + 200)
compute_backoff_ms-le_example =
    compute_backoff_ms-le counting default_options 3 0 2000 200 refl (omega arith) refl
      (omega arith)

hedged-eq-first_success_example :
    (hedged (λ k. timer_then_second) third_time 75 1).0
    ≡ in_order timer_then_second (third_time 1).0 (third_time (third_time 1).1).0
hedged-eq-first_success_example =
    hedged-eq-first_success (λ k. timer_then_second) third_time 75 1 (omega arith)

-- The first run fails, then the second one returns.
abbrev won : Race ℕ
won = run_ends 75 (ok 7) (run_ends 75 (err (service unavailable_error)) start)

start-IsCoherent : IsCoherent {A = ℕ} start
start-IsCoherent = record { unsettled = λ e. refl; done = λ e. absurd (cc e) }

Races-settled_example :
    ((run_ends 75 (ok 8) won).settled ≡ true) × ((run_ends 75 (ok 8) won).out ≡ won.out)
unfolding run_ends
Races-settled_example = Races-settled 75 {t = run_ends 75 (ok 8) won} (next here (ok 8)) refl

-- A read that always fails.
abbrev failing : Async ℕ ℕ
failing w = (err (service unavailable_error), w)

call_read_hangs_example : (call_read platform hedging_client failing world).0 ≡ pending
call_read_hangs_example =
    call_read_hangs platform hedging_client failing world refl (omega arith)
      (λ v. (service unavailable_error, refl))

abbrev missing_error : ServiceError
missing_error = record { code = 5; details = "no such point" }

-- The number of a status that the client does not name.
abbrev denied_error : ServiceError
denied_error = record { code = 7; details = "denied" }

denied_test : (handle_error platform denied_error).class_of ≡ vectron_error
unfolding handle_error new_vectron_error
denied_test = refl

handle_error_class_example :
    (((handle_error platform missing_error).class_of ≡ not_found_error)
      ↔ (missing_error.code ≡ platform.number not_found))
    × ((handle_error platform missing_error).message
        ≡ message_for (handle_error platform missing_error).class_of missing_error.details)
handle_error_class_example =
    handle_error_class platform missing_error not_found not_found_error refl
