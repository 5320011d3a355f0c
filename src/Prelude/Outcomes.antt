-- ===== src/Prelude/Outcomes.antt =====
-- How an asynchronous call ends: it returns, it throws, or its promise never settles.

pub data Outcome {ℓ κ} (E : Type ℓ) (A : Type κ) : Type (ℓ ⊔ κ) where
  ok : A → Outcome E A
  err : E → Outcome E A
  pending : Outcome E A
