-- ===== src/Base/Outcome.antt =====
-- How a call of C ends: it returns, it is stopped by `alert_and_stop_if` (include/alert.h), behind
-- which the processor loops for ever, or it is still in a loop when the fuel of the model runs out.
pub data Outcome {ℓ} (A : Type ℓ) : Type ℓ where
  returned : A → Outcome A
  alerted : Outcome A
  unfinished : Outcome A

infixl 5 ◌>>=◌
abbrev pub ◌>>=◌ {ℓ κ} : {A : Type ℓ} {B : Type κ} → Outcome A → (A → Outcome B) → Outcome B
returned a >>= f = f a
alerted >>= f = alerted
unfinished >>= f = unfinished
