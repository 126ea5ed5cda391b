-- ===== src/Config/Lines.antt =====
-- The lines that src/config.c reads from the configuration file.
use os_lab.Prelude.{
  ℕ, zero, suc, ◌+◌, ◌-◌, ◌≤◌, ◌<◌, ◌≡◌, refl, ap, ap₂, ◌∙◌, Bool, true, false, not, List, [], ◌∷◌,
  ◌++◌, some, Bytes, length, length-append, All, inl, inr, arith, Bool-cases, ◌==◌,
}
use os_lab.Config.{
  Config, is_equals, is_line_end, before, from, token_of, token, set_value, with_tokens, set_option,
  skipped, trim_whitespace, read_line, fgets_lines,
}

unfoldable pub joined : List Bytes → Bytes
joined [] = []
joined (line ∷ lines) = line ++ joined lines

abbrev Fits : ℕ → List Bytes → Type 0
Fits size = All (λ line. length line < size)

append_later : (line : Bytes) (b : ℕ) (text : Bytes) → (line ++ b ∷ []) ++ text ≡ line ++ b ∷ text
append_later [] b text = refl
append_later (c ∷ line) b text = ap (◌∷◌ c) (append_later line b text)

joined-fgets :
    (size room : ℕ) (line text : Bytes) → joined (fgets_lines size room line text) ≡ line ++ text
unfolding joined fgets_lines
joined-fgets size room [] [] = refl
joined-fgets size room (c ∷ line) [] = refl
joined-fgets size zero line (b ∷ text) =
    ap (◌++◌ (line ++ b ∷ [])) (joined-fgets size (size - 2) [] text) ∙ append_later line b text
joined-fgets size (suc room) line (b ∷ text) = elim (Bool-cases (b == 10)) [
  | inl end ↦
      rw end (
        ap (◌++◌ (line ++ b ∷ [])) (joined-fgets size (size - 2) [] text)
        ∙ append_later line b text)
  | inr more ↦ rw more (joined-fgets size room (line ++ b ∷ []) text ∙ append_later line b text)
]

fgets-Fits :
    (size room : ℕ) (line text : Bytes)
    → 2 ≤ size
    → length line + room + 2 ≤ size
    → Fits size (fgets_lines size room line text)
unfolding fgets_lines
fgets-Fits size room [] [] two fits = tt
fgets-Fits size room (c ∷ line) [] two fits = (omega arith, tt)
fgets-Fits size zero line (b ∷ text) two fits = (
  omega (arith, length-append line (b ∷ [])),
  fgets-Fits size (size - 2) [] text two (omega arith),
)
fgets-Fits size (suc room) line (b ∷ text) two fits = elim (Bool-cases (b == 10)) [
  | inl end ↦ rw end (
    omega (arith, length-append line (b ∷ [])),
    fgets-Fits size (size - 2) [] text two (omega arith),
  )
  | inr more ↦
      rw more (
        fgets-Fits size room (line ++ b ∷ []) text two (omega (arith, length-append line (b ∷ []))))
]

-- Reading a file line by line loses no byte and adds none, and no line overruns the buffer of 256
-- bytes with its NUL, whatever the file holds.
pub fgets_lines-joined :
    (text : Bytes)
    → (joined (fgets_lines 256 254 [] text) ≡ text)
      × All (λ line. length line < 256) (fgets_lines 256 254 [] text)
fgets_lines-joined text =
    (joined-fgets 256 254 [] text, fgets-Fits 256 254 [] text (omega arith) (omega arith))

-- The bytes of a key or a value as one writes it: some, and no `=` or end of a line.
abbrev pub IsPlain : Bytes → Type 0
IsPlain [] = ⊥
IsPlain (b ∷ text) = All (λ c. (is_equals c ≡ false) × (is_line_end c ≡ false)) (b ∷ text)

abbrev Free : (ℕ → Bool) → Bytes → Type 0
Free p = All (λ b. p b ≡ false)

before-Free :
    (p : ℕ → Bool) (front : Bytes) (b : ℕ) (back : Bytes)
    → Free p front
    → p b ≡ true
    → before p (front ++ b ∷ back) ≡ front
unfolding before
before-Free p [] b back free stop = rw stop refl
before-Free p (c ∷ front) b back (clear, free) stop =
    rw clear (ap (◌∷◌ c) (before-Free p front b back free stop))

before-all : (p : ℕ → Bool) (text : Bytes) → Free p text → before p text ≡ text
unfolding before
before-all p [] free = refl
before-all p (c ∷ text) (clear, free) = rw clear (ap (◌∷◌ c) (before-all p text free))

from-Free :
    (p : ℕ → Bool) (front : Bytes) (b : ℕ) (back : Bytes)
    → Free p front
    → p b ≡ true
    → from p (front ++ b ∷ back) ≡ b ∷ back
unfolding from
from-Free p [] b back free stop = rw stop refl
from-Free p (c ∷ front) b back (clear, free) stop = rw clear (from-Free p front b back free stop)

no_equals :
    (text : Bytes)
    → All (λ c. (is_equals c ≡ false) × (is_line_end c ≡ false)) text
    → Free is_equals text
no_equals [] all = tt
no_equals (c ∷ text) ((clear, _), all) = (clear, no_equals text all)

no_end :
    (text : Bytes)
    → All (λ c. (is_equals c ≡ false) × (is_line_end c ≡ false)) text
    → Free is_line_end text
no_end [] all = tt
no_end (c ∷ text) ((_, clear), all) = (clear, no_end text all)

Free-append : (p : ℕ → Bool) (a b : Bytes) → Free p a → Free p b → Free p (a ++ b)
Free-append p [] b fa fb = fb
Free-append p (c ∷ a) b (clear, fa) fb = (clear, Free-append p a b fa fb)

plain :
    (text : Bytes) → IsPlain text → All (λ c. (is_equals c ≡ false) × (is_line_end c ≡ false)) text
plain (b ∷ text) all = all
plain [] all = elim all [ ]

from_here :
    (k : ℕ) (text : Bytes)
    → is_equals k ≡ false
    → from (λ b. not (is_equals b)) (k ∷ text) ≡ k ∷ text
unfolding from
from_here k text clear = rw clear refl

from_there :
    (v : ℕ) (text : Bytes)
    → is_equals v ≡ false
    → from (λ b. not (is_equals b)) (61 ∷ v ∷ text) ≡ v ∷ text
unfolding from
from_there v text clear = rw clear refl

-- The two calls of `strtok` on `key=value`.
token-key : (key value : Bytes) → IsPlain key → token (key ++ 61 ∷ value) ≡ some (key, 61 ∷ value)
token-key (k ∷ key) value all =
    let free = no_equals (k ∷ key) all in
    let cut = before-Free is_equals (k ∷ key) 61 value free refl in
    let rest = from-Free is_equals (k ∷ key) 61 value free refl in
    let start = from_here k (key ++ 61 ∷ value) free.0 in
    ap token_of start ∙ ap₂ (λ x y. some (x, y)) cut rest
token-key [] value all = elim all [ ]

token-value :
    (value : Bytes) → IsPlain value → token (61 ∷ value) ≡ some (value, from is_equals value)
token-value (v ∷ value) all =
    let free = no_equals (v ∷ value) all in
    let whole = before-all is_equals (v ∷ value) free in
    let start = from_there v value free.0 in
    ap token_of start ∙ ap (λ x. some (x, from is_equals (v ∷ value))) whole
token-value [] all = elim all [ ]

pub shown-append : (key more : Bytes) → skipped key ≡ false → skipped (key ++ more) ≡ false
shown-append [] more h = ground arith
shown-append (k ∷ key) more h = h

with_tokens-plain :
    (c : Config) (key value : Bytes)
    → token (key ++ 61 ∷ value) ≡ some (key, 61 ∷ value)
    → token (61 ∷ value) ≡ some (value, from is_equals value)
    → with_tokens c (token (key ++ 61 ∷ value))
      ≡ set_option c (trim_whitespace key) (trim_whitespace value)
with_tokens-plain c key value first second = ap (with_tokens c) first ∙ ap (set_value c key) second

-- A line `key=value` of a plain key, that does not start a comment, and a plain value is cut into the
-- two.
pub read_line-tokens :
    (c : Config) (key value : Bytes)
    → IsPlain key
    → IsPlain value
    → skipped key ≡ false
    → read_line c ((key ++ 61 ∷ value) ++ 10 ∷ [])
      ≡ set_option c (trim_whitespace key) (trim_whitespace value)
unfolding read_line
read_line-tokens c key value pk pv shown =
    let free =
      Free-append is_line_end key (61 ∷ value) (no_end key (plain key pk))
        (refl, no_end value (plain value pv)) in
    let line = before-Free is_line_end (key ++ 61 ∷ value) 10 [] free refl in
    let visible =
      shown-append (key ++ 61 ∷ value) (10 ∷ []) (shown-append key (61 ∷ value) shown) in
    rw (visible, line)
      (with_tokens-plain c key value (token-key key value pk) (token-value value pv))
