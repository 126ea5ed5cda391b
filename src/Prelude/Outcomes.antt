-- ===== src/Prelude/Outcomes.antt =====
-- Calls that succeed with a value or fail with a message.
use os_lab.Prelude.Text.{Bytes}

pub data Result {ℓ} (A : Type ℓ) : Type ℓ where
  ok : A → Result A
  err : Bytes → Result A
