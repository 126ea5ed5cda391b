-- ===== src/Prelude/Text.antt =====
-- C strings: the bytes before the terminating NUL.
use Prim.Native.Nat.{ℕ, ◌-◌, ◌<◌}
use Prim.Native.Char.{code}
use Prim.Native.String.{String}
use mathlib.Core.Path.{◌≡◌, refl}
use mathlib.Core.Logic.{◌↔◌}
use mathlib.Core.Bool.{Bool, true, false, ◌&&◌}
use mathlib.Core.List.{List, [], ◌∷◌}
use native.Mathlib.Omega.{arith}
use os_lab.Prelude.Tests.{◌==◌}
use os_lab.Prelude.Lists.{take, All}
use os_lab.Prelude.Arrays.{Inhabited}

abbrev pub Bytes : Type 0
Bytes = List ℕ

-- Every number is the value of an `unsigned char`.
abbrev pub AreBytes : Bytes → Type 0
AreBytes = All (λ b. b < 256)

-- The bytes of a literal, all of which are ASCII here.
abbrev pub codes : String → Bytes
codes String.[] = []
codes (String.◌∷◌ c s) = code c ∷ codes s

instance abbrev pub byte_inhabited : Inhabited ℕ
byte_inhabited = record { default = 0 }

-- `strcmp(a, b) == 0`
unfoldable pub str_eq : Bytes → Bytes → Bool
str_eq [] [] = true
str_eq (x ∷ a) (y ∷ b) = x == y && str_eq a b
str_eq _ _ = false

-- What `snprintf` leaves in a buffer of `size` bytes, and `strncpy(dst, src, size - 1)` in a zeroed
-- one: the text, cut to leave room for the NUL.
abbrev pub snprintf : ℕ → Bytes → Bytes
snprintf size text = take (size - 1) text

-- `strncpy(dst, src, sizeof(dst) - 1)` into a zeroed `dst` of `size` bytes: what `dst` then holds.
abbrev pub strncpy : ℕ → Bytes → Bytes
strncpy size src = take (size - 1) src

pub str_eq→eq : (a b : Bytes) → str_eq a b ≡ true → a ≡ b
unfolding str_eq
str_eq→eq [] [] h = refl
str_eq→eq [] (y ∷ b) h = ground arith
str_eq→eq (x ∷ a) [] h = ground arith
str_eq→eq (x ∷ a) (y ∷ b) h = ground (arith, str_eq→eq a b)

pub str_eq_self : (a : Bytes) → str_eq a a ≡ true
unfolding str_eq
str_eq_self [] = refl
str_eq_self (x ∷ a) = ground (arith, str_eq_self a)

pub str_eq_iff : (a b : Bytes) → (str_eq a b ≡ true) ↔ (a ≡ b)
str_eq_iff a b = (str_eq→eq a b, λ e. rw e (str_eq_self b))
