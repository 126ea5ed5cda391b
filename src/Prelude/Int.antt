-- ===== src/Prelude/Int.antt =====
-- The C `int` results that the code only tests for their sign.
use Prim.Native.Nat.{ℕ, zero, suc, ◌-◌, ◌%◌, ◌^◌, ◌<◌}
use native.Mathlib.Omega.{arith}
use mathlib.Core.Path.{◌≡◌, refl}
use mathlib.Core.Bool.{Bool, true, false}

-- `negsuc n` is -(n + 1).
pub data ℤ : Type 0 where
  pos : ℕ → ℤ
  negsuc : ℕ → ℤ

-- `r >= 0`
abbrev pub ge_zero : ℤ → Bool
ge_zero (pos n) = true
ge_zero (negsuc n) = false

-- `r > 0`
abbrev pub gt_zero : ℤ → Bool
gt_zero (pos zero) = false
gt_zero (pos (suc n)) = true
gt_zero (negsuc n) = false

pub gt_zero→ge_zero : (r : ℤ) → gt_zero r ≡ true → ge_zero r ≡ true
gt_zero→ge_zero (pos n) h = refl
gt_zero→ge_zero (negsuc n) h = h

-- The value of an `int` as an `unsigned short`.
abbrev pub uint16 : ℤ → ℕ
uint16 (pos n) = n % 2 ^ 16
uint16 (negsuc n) = 2 ^ 16 - 1 - n % 2 ^ 16

pub uint16_bound : (r : ℤ) → uint16 r < 2 ^ 16
uint16_bound (pos n) = omega arith
uint16_bound (negsuc n) = omega arith
