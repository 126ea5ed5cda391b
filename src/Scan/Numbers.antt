-- ===== src/Scan/Numbers.antt =====
-- How `%zu` of `sscanf` reads a number that `printf` wrote.
use os_lab.Prelude.{
  ℕ, zero, suc, ◌+◌, ◌-◌, ◌*◌, ◌/◌, ◌%◌, ◌^◌, ◌≤◌, ◌<◌, ◌≡◌, refl, ap, ◌∙◌, true, false, [], ◌∷◌,
  ◌++◌, some, Bytes, decimal, decimal_loop, All, arith, inl, inr, Bool-cases, ltb, leb, le→leb,
  lt→ltb, ◌==◌,
}
use os_lab.Scan.{
  is_white, is_digit, size_max, skip_white, take_digits, number, scan_size, scan_long, sign,
}
use os_lab.Scan.Words.{Ends}

abbrev AreDigits : Bytes → Type 0
AreDigits = All (λ b. is_digit b ≡ true)

digit_fits : (n : ℕ) → n < 10 → is_digit (b'0' + n) ≡ true
digit_fits n h = ground arith

number-decimal_loop :
    (fuel n : ℕ) (acc : Bytes) → n < fuel → number 0 (decimal_loop fuel n acc) ≡ number n acc
unfolding number decimal_loop
number-decimal_loop zero n acc h = absurd (omega arith)
number-decimal_loop (suc fuel) n acc h = elim (Bool-cases (ltb n 10)) [
  | inl small ↦
      let value : 0 * 10 + (b'0' + n - b'0') ≡ n = omega arith in
      rw small (ap (λ x. number x acc) value)
  | inr large ↦
      let value : n / 10 * 10 + (b'0' + n % 10 - b'0') ≡ n = omega arith in
      rw large (
        number-decimal_loop fuel (n / 10) ((b'0' + n % 10) ∷ acc) (ground arith)
        ∙ ap (λ x. number x acc) value)
]

decimal_loop-digits :
    (fuel n : ℕ) (acc : Bytes) → n < fuel → AreDigits acc → AreDigits (decimal_loop fuel n acc)
unfolding decimal_loop
decimal_loop-digits zero n acc h all = absurd (omega arith)
decimal_loop-digits (suc fuel) n acc h all = elim (Bool-cases (ltb n 10)) [
  | inl small ↦ rw small (digit_fits n (ground arith), all)
  | inr large ↦ rw large (
      decimal_loop-digits fuel (n / 10) ((b'0' + n % 10) ∷ acc) (ground arith)
        (digit_fits (n % 10) (omega arith), all))
]

abbrev Nonempty : Bytes → Type 0
Nonempty [] = ⊥
Nonempty (b ∷ text) = Unit

decimal_loop-Nonempty : (fuel n : ℕ) (acc : Bytes) → n < fuel → Nonempty (decimal_loop fuel n acc)
unfolding decimal_loop
decimal_loop-Nonempty zero n acc h = absurd (omega arith)
decimal_loop-Nonempty (suc fuel) n acc h = elim (Bool-cases (ltb n 10)) [
  | inl small ↦ rw small tt
  | inr large ↦ rw large (nonempty-loop fuel (n / 10) (b'0' + n % 10) acc)
]
  where
    nonempty-loop : (fuel n b : ℕ) (acc : Bytes) → Nonempty (decimal_loop fuel n (b ∷ acc))
    nonempty-loop zero n b acc = tt
    nonempty-loop (suc fuel) n b acc = elim (Bool-cases (ltb n 10)) [
      | inl small ↦ rw small tt
      | inr large ↦ rw large (nonempty-loop fuel (n / 10) (b'0' + n % 10) (b ∷ acc))
    ]

take_digits-plain :
    (digits rest : Bytes)
    → AreDigits digits
    → Ends rest
    → take_digits (digits ++ rest) ≡ (digits, rest)
unfolding take_digits
take_digits-plain [] [] all ends = refl
take_digits-plain [] (b ∷ rest) all ends = let other : is_digit b ≡ false = ground arith in rw other
take_digits-plain (d ∷ digits) rest (first, all) ends =
    rw (first, take_digits-plain digits rest all ends)

-- Digits behind a space are a number without a sign.
scan_sign :
    (digits rest : Bytes)
    → Nonempty digits
    → AreDigits digits
    → sign (skip_white (32 ∷ digits ++ rest)) ≡ (false, digits ++ rest)
unfolding skip_white
scan_sign (d ∷ digits) rest some_digit all =
    let solid : is_white d ≡ false = ground arith in
    let not_minus : d == b'-' ≡ false = ground arith in
    let not_plus : d == b'+' ≡ false = ground arith in rw (solid, not_minus, not_plus) refl
scan_sign [] rest some_digit all = elim some_digit [ ]

scan_digits :
    (digits rest : Bytes)
    → Nonempty digits
    → AreDigits digits
    → Ends rest
    → number 0 digits ≤ size_max
    → scan_size (32 ∷ digits ++ rest) ≡ some (number 0 digits, rest)
unfolding scan_size
scan_digits (d ∷ digits) rest some_digit all ends fits =
    let taken = take_digits-plain (d ∷ digits) rest all ends in
    let plain = scan_sign (d ∷ digits) rest some_digit all in
    let small : leb (number 0 (d ∷ digits)) size_max ≡ true = le→leb _ _ fits in
    rw plain (rw taken (rw small refl))
scan_digits [] rest some_digit all ends fits = elim some_digit [ ]

scan_long_digits :
    (digits rest : Bytes)
    → Nonempty digits
    → AreDigits digits
    → Ends rest
    → number 0 digits < 2 ^ 63
    → scan_long (32 ∷ digits ++ rest) ≡ some (number 0 digits)
unfolding scan_long
scan_long_digits (d ∷ digits) rest some_digit all ends fits =
    let taken = take_digits-plain (d ∷ digits) rest all ends in
    let plain = scan_sign (d ∷ digits) rest some_digit all in
    let small : ltb (number 0 (d ∷ digits)) (2 ^ 63) ≡ true = lt→ltb _ _ fits in
    rw plain (rw taken (rw small refl))
scan_long_digits [] rest some_digit all ends fits = elim some_digit [ ]

-- A printed number has digits only.
pub decimal-digits : (n : ℕ) → All (λ b. is_digit b ≡ true) (decimal n)
unfolding decimal
decimal-digits n = decimal_loop-digits (n + 1) n [] (omega arith) tt

-- A number that fits in a `size_t` is read back as it was written.
pub scan_size-decimal :
    (n : ℕ) (rest : Bytes)
    → n ≤ size_max
    → Ends rest
    → scan_size (32 ∷ decimal n ++ rest) ≡ some (n, rest)
unfolding decimal number
scan_size-decimal n rest fits ends =
    let value : number 0 (decimal n) ≡ n = number-decimal_loop (n + 1) n [] (omega arith) in
    rw value at (
      scan_digits (decimal n) rest (decimal_loop-Nonempty (n + 1) n [] (omega arith))
        (decimal_loop-digits (n + 1) n [] (omega arith) tt) ends (rw value fits))

pub scan_long-decimal :
    (n : ℕ) (rest : Bytes) → n < 2 ^ 63 → Ends rest → scan_long (32 ∷ decimal n ++ rest) ≡ some n
unfolding decimal number
scan_long-decimal n rest fits ends =
    let value : number 0 (decimal n) ≡ n = number-decimal_loop (n + 1) n [] (omega arith) in
    rw value at (
      scan_long_digits (decimal n) rest (decimal_loop-Nonempty (n + 1) n [] (omega arith))
        (decimal_loop-digits (n + 1) n [] (omega arith) tt) ends (rw value fits))
