-- ===== src/Client/Hedge/Settling.antt =====
-- When the promise of `hedged` in clientlibs/js/src/client.ts settles, and with what.
use vectron.Prelude.{ℕ, ◌≡◌, refl, ◌≢◌, ◌<◌, true, false, arith, Outcome, ok, err, pending}
use vectron.Client.Errors.{Thrown}
use vectron.Client.Hedge.{
  Race, Order, first_then_timer, timer_then_first, timer_then_second, run_ends, hedged,
}

abbrev pub first_success {ℓ} : {A : Type ℓ} → Outcome Thrown A → Outcome Thrown A → Outcome Thrown A
first_success (ok a) r = ok a
first_success (err e) (ok b) = ok b
first_success (err e) (err e') = pending
first_success (err e) pending = pending
first_success pending (ok b) = ok b
first_success pending (err e) = pending
first_success pending pending = pending

-- The two runs, in the order in which they end.
abbrev pub in_order {ℓ} :
    {A : Type ℓ} → Order → Outcome Thrown A → Outcome Thrown A → Outcome Thrown A
in_order first_then_timer r r' = first_success r r'
in_order timer_then_first r r' = first_success r r'
in_order timer_then_second r r' = first_success r' r

-- The promise is settled exactly when the flag is set.
pub record IsCoherent {A : Type 0} (s : Race A) : Type 0 where
  pub unsettled : s.settled ≡ false → s.out ≡ pending
  pub done : s.settled ≡ true → s.out ≢ pending

-- A race goes on by the ends of runs, in any order and number.
pub data Races {A : Type 0} (delay_ms : ℕ) (s : Race A) : Race A → Type 0 where
  here : Races delay_ms s s
  next :
      {t : Race A}
      → Races delay_ms s t
      → (r : Outcome Thrown A) → Races delay_ms s (run_ends delay_ms r t)

module _ {A : Type 0} (delay_ms : ℕ) where
  run_ends-IsCoherent :
      (r : Outcome Thrown A) (s : Race A) → IsCoherent s → IsCoherent (run_ends delay_ms r s)
  unfolding run_ends
  run_ends-IsCoherent (ok res) s h = ground arith
  run_ends-IsCoherent (err e) s h = ground arith
  run_ends-IsCoherent pending s h = h

  -- If the flag `settled` and the promise of a hedged read agree, then they still do after any
  -- ends of runs.
  pub Races-IsCoherent : {s t : Race A} → Races delay_ms s t → IsCoherent s → IsCoherent t
  Races-IsCoherent here h = h
  Races-IsCoherent (next rs r) h = run_ends-IsCoherent r _ (Races-IsCoherent rs h)

  run_ends-settled :
      (r : Outcome Thrown A) (s : Race A)
      → s.settled ≡ true
      → ((run_ends delay_ms r s).settled ≡ true) × ((run_ends delay_ms r s).out ≡ s.out)
  unfolding run_ends
  run_ends-settled (ok res) s h = ground arith
  run_ends-settled (err e) s h = ground arith
  run_ends-settled pending s h = (h, refl)

  -- Once the promise of a hedged read is settled, it stays so and keeps its outcome, whatever
  -- runs end later.
  pub Races-settled :
      {s t : Race A} → Races delay_ms s t → s.settled ≡ true → (t.settled ≡ true) × (t.out ≡ s.out)
  Races-settled here h = (h, refl)
  Races-settled (next {t = t} rs r) h = ground (arith, Races-settled rs h, run_ends-settled r t)

module _ {W A : Type 0} (order : W → Order) (fn : W → Outcome Thrown A × W) (delay_ms : ℕ) where
  -- With a delay, a hedged read never rejects.
  pub hedged-ne-err : (w : W) (e : Thrown) → 0 < delay_ms → (hedged order fn delay_ms w).0 ≢ err e
  unfolding hedged run_ends
  hedged-ne-err w e h = ground arith

  -- With a delay and two reads that both fail, the promise never settles: the error is lost.
  pub hedged_lost :
      (w : W) (e e' : Thrown)
      → 0 < delay_ms
      → (fn w).0 ≡ err e
      → (fn (fn w).1).0 ≡ err e'
      → (hedged order fn delay_ms w).0 ≡ pending
  unfolding hedged run_ends
  hedged_lost w e e' h p q = ground arith

  -- With a positive delay, the outcome of a hedged read is the first success among its two runs
  -- in the order in which they end, and it never settles if neither succeeds.
  pub hedged-eq-first_success :
      (w : W)
      → 0 < delay_ms
      → (hedged order fn delay_ms w).0 ≡ in_order (order w) (fn w).0 (fn (fn w).1).0
  unfolding hedged run_ends
  hedged-eq-first_success w h = ground arith
