-- ===== src/Scan.antt =====
-- What src/client.c and src/client_program.c use of `sscanf`: the directives `%Ns` and `%zu`.
pub mod Words
pub mod Numbers
use os_lab.Prelude.{
  ℕ, zero, suc, ◌+◌, ◌-◌, ◌*◌, ◌^◌, ◌%◌, Bool, true, false, ◌&&◌, ◌||◌, List, [], ◌∷◌, Option, none,
  some, Bytes, leb, ltb, ◌==◌, if◌then◌else◌,
}

-- `isspace` in the C locale.
abbrev pub is_white : ℕ → Bool
is_white b = b == 32 || (leb 9 b && leb b 13)

abbrev pub is_digit : ℕ → Bool
is_digit b = leb b'0' b && leb b b'9'

pub skip_white : Bytes → Bytes
skip_white [] = []
skip_white (b ∷ text) = let rest = skip_white text in if is_white b then rest else b ∷ text

abbrev pub put_front : ℕ → Bytes × Bytes → Bytes × Bytes
put_front b (word, rest) = (b ∷ word, rest)

-- At most `width` bytes that are not white space, and what is left.
pub take_word : ℕ → Bytes → Bytes × Bytes
take_word zero text = ([], text)
take_word (suc width) [] = ([], [])
take_word (suc width) (b ∷ text) =
    let more = put_front b (take_word width text) in if is_white b then ([], b ∷ text) else more

-- A directive that matches nothing ends the call.
abbrev pub matched : Bytes × Bytes → Option (Bytes × Bytes)
matched ([], rest) = none
matched (b ∷ word, rest) = some (b ∷ word, rest)

-- `%Ns`
pub scan_word : ℕ → Bytes → Option (Bytes × Bytes)
scan_word width text = matched (take_word width (skip_white text))

abbrev pub scan_more :
    Bytes → (Bytes → List Bytes × Bytes) → Option (Bytes × Bytes) → List Bytes × Bytes
scan_more text go_on none = ([], text)
scan_more text go_on (some (word, rest)) = let (words, left) = go_on rest in (word ∷ words, left)

-- `%Ns %Ns ...`: the words up to the first directive that matches nothing, and what is left.
unfoldable pub scan_words : List ℕ → Bytes → List Bytes × Bytes
unfolding scan_word take_word skip_white
scan_words [] text = ([], text)
scan_words (width ∷ widths) text = scan_more text (scan_words widths) (scan_word width text)

pub take_digits : Bytes → Bytes × Bytes
take_digits [] = ([], [])
take_digits (b ∷ text) =
    let more = put_front b (take_digits text) in if is_digit b then more else ([], b ∷ text)

pub number : ℕ → Bytes → ℕ
number n [] = n
number n (b ∷ digits) = number (n * 10 + (b - b'0')) digits

-- The sign, and what follows it.
abbrev pub sign : Bytes → Bool × Bytes
sign [] = (false, [])
sign (b ∷ text) =
    if b == b'-' then (true, text) else if b == b'+' then (false, text) else (false, b ∷ text)

abbrev pub size_max : ℕ
size_max = 2 ^ 64 - 1

-- `strtoul`: a number out of range is the largest, and a minus sign wraps around.
abbrev pub to_size : Bool → ℕ → ℕ
to_size negative n =
    if leb n size_max then (if negative then (2 ^ 64 - n) % 2 ^ 64 else n) else size_max

abbrev pub sized : Bool → Bytes × Bytes → Option (ℕ × Bytes)
sized negative ([], rest) = none
sized negative (b ∷ digits, rest) = some (to_size negative (number 0 (b ∷ digits)), rest)

-- `%zu`
unfoldable pub scan_size : Bytes → Option (ℕ × Bytes)
unfolding skip_white take_digits number
scan_size text = let (negative, body) = sign (skip_white text) in sized negative (take_digits body)

-- `strtol`: a negative number is 0 here, since the client program does the same with both. A number out of range is the largest.
abbrev pub to_long : Bool → ℕ → ℕ
to_long true n = 0
to_long false n = if ltb n (2 ^ 63) then n else 2 ^ 63 - 1

abbrev pub long_of : Bool → Bytes × Bytes → Option ℕ
long_of negative ([], rest) = none
long_of negative (b ∷ digits, rest) = some (to_long negative (number 0 (b ∷ digits)))

-- `%ld`
unfoldable pub scan_long : Bytes → Option ℕ
unfolding skip_white take_digits number
scan_long text =
    let (negative, body) = sign (skip_white text) in long_of negative (take_digits body)
