-- ===== src/Client/Hedge.antt =====
-- Hedged reads of clientlibs/js/src/client.ts: `hedged`. The promise `out` and the variables that
-- its callbacks share are a record; each end of a run of the function is a step on it.
pub mod Settling
use vectron.Prelude.{
  ℕ, zero, suc, Bool, true, false, Option, none, some, ◌==◌, if◌then◌else◌, Outcome, ok, err,
  pending,
}
use vectron.Client.Errors.{Thrown}

pub record Race (A : Type 0) : Type 0 where
  pub settled : Bool
  pub last_error : Option Thrown
  pub out : Outcome Thrown A

-- What happens first once the read has been sent: its answer, or the timer. After the timer both
-- reads are under way, and either may end first.
pub data Order : Type 0 where
  first_then_timer : Order
  timer_then_first : Order
  timer_then_second : Order

module _ {A : Type 0} where
  abbrev pub start : Race A
  start = record { settled = false; last_error = none; out = pending }

  -- The end of one `run`, in its `try` or in its `catch`.
  unfoldable pub run_ends : ℕ → Outcome Thrown A → Race A → Race A
  run_ends delay_ms (ok res) s = if s.settled then s else record s { settled = true; out = ok res }
  run_ends delay_ms (err e) s =
      if s.settled
      then record s { last_error = some e }
      else if delay_ms == 0
      then record { settled = true; last_error = some e; out = err e }
      else record s { last_error = some e }
  run_ends delay_ms pending s = s

module _ {W A : Type 0} (order : W → Order) where
  -- With a delay the timer starts a second `run`, unless the promise is settled by then.
  unfoldable pub hedged : (W → Outcome Thrown A × W) → ℕ → W → Outcome Thrown A × W
  hedged fn delay_ms w =
      let (r, w₁) = fn w in
      let first : Race A = run_ends delay_ms r start in
      if delay_ms == 0 then (first.out, w₁) else elim (order w) [
        | first_then_timer ↦
            if first.settled
            then (first.out, w₁)
            else (let (r', w₂) = fn w₁ in ((run_ends delay_ms r' first).out, w₂))
        | timer_then_first ↦ let (r', w₂) = fn w₁ in ((run_ends delay_ms r' first).out, w₂)
        | timer_then_second ↦
            let (r', w₂) = fn w₁ in ((run_ends delay_ms r (run_ends delay_ms r' start)).out, w₂)
      ]
