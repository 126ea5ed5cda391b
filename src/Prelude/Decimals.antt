-- ===== src/Prelude/Decimals.antt =====
-- Decimal numbers, as printf writes them.
use Prim.Native.Nat.{ℕ, zero, suc, ◌+◌, ◌/◌, ◌%◌}
use mathlib.Core.List.{[], ◌∷◌}
use os_lab.Prelude.Tests.{ltb, if◌then◌else◌}
use os_lab.Prelude.Text.{Bytes}

-- The digits of `n` in front of `acc`; the fuel bounds their number.
unfoldable pub decimal_loop : ℕ → ℕ → Bytes → Bytes
decimal_loop zero n acc = acc
decimal_loop (suc fuel) n acc =
    let rest = decimal_loop fuel (n / 10) ((b'0' + n % 10) ∷ acc) in
    if ltb n 10 then (b'0' + n) ∷ acc else rest

unfoldable pub decimal : ℕ → Bytes
unfolding decimal_loop
decimal n = decimal_loop (n + 1) n []
