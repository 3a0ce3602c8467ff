-- ===== src/Base/Outcome.antt =====
-- How a Go call ends: with its value, with an error, by a panic, or never (a lock or a channel
-- operation that blocks for good).

pub data Outcome {ℓ} (E : Type 0) (A : Type ℓ) : Type ℓ where
  ok : A → Outcome E A
  err : E → Outcome E A
  panic : Outcome E A
  blocked : Outcome E A
