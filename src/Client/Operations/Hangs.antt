-- ===== src/Client/Operations/Hangs.antt =====
-- Hedged reads of clientlibs/js/src/client.ts when the server fails.
use vectron.Prelude.{◌<◌, ◌≡◌, true, false, pos, max_ℕ, err, pending, or_else}
use vectron.Client.Errors.{Platform, Thrown}
use vectron.Client.Hedge.{hedged}
use vectron.Client.Hedge.Settling.{hedged_lost}
use vectron.Client.Retry.{is_truthy}
use vectron.Client.Retry.Limits.{call_with_retry_pends}
use vectron.Client.World.{World, Async, timers, order_now}
use vectron.Client.Session.{Client, call_read}

module _ {F A : Type 0} (pf : Platform) (c : Client) (fn : Async F A) where
  -- With hedged reads set and a positive delay, a read whose function fails in every world never
  -- settles: its error is neither thrown nor retried.
  pub call_read_hangs :
      (w : World F)
      → is_truthy c.options.hedged_reads ≡ true
      → 0 < max_ℕ (or_else c.options.hedge_delay_ms (pos 75)) 0
      → ((v : World F) → (e : Thrown) × ((fn v).0 ≡ err e))
      → (call_read pf c fn w).0 ≡ pending
  unfolding call_read
  call_read_hangs w on delayed fails = rw on (
      call_with_retry_pends timers pf c.options false
        (hedged order_now fn (max_ℕ (or_else c.options.hedge_delay_ms (pos 75)) 0)) w
        (λ v.
          hedged_lost order_now fn (max_ℕ (or_else c.options.hedge_delay_ms (pos 75)) 0) v
            (fails v).0 (fails (fn v).1).0 delayed (fails v).1 (fails (fn v).1).1))
