-- ===== src/Crypto/Laws.antt =====
-- What the cipher of src/crypto.c does to a buffer.
use Prim.Native.Nat.{bit_xor}
use native.Mathlib.Nat.{add-zero, zero-add}
use os_lab.Prelude.{
  ℕ, zero, suc, ◌+◌, ◌%◌, ◌<◌, ◌≡◌, refl, ap, Bool, true, false, ◌&&◌, [], ◌∷◌, some, Bytes,
  AreBytes, length, get!, byte_inhabited, arith, ltb, ◌==◌, if◌then◌else◌,
}
use os_lab.Crypto.{xor_from, xor_cipher, secret, encode_data, decode_data}

-- Whether a test holds at the first `count` numbers.
passes : (ℕ → Bool) → ℕ → Bool
passes test zero = true
passes test (suc count) = if test count then passes test count else false

passes_at : (test : ℕ → Bool) (count i : ℕ) → passes test count ≡ true → i < count → test i ≡ true
unfolding passes
passes_at test (suc count) i good inside = ground (arith, passes_at test count i)
passes_at test zero i good inside = ground arith

-- The test of one key byte on one byte: the result is a byte, and a second XOR undoes the first.
abbrev undone : ℕ → ℕ → Bool
undone k b = ltb (bit_xor b k) 256 && bit_xor (bit_xor b k) k == b

-- The whole table: each of the 14 key bytes, with each of the 256 bytes.
every_pair : passes (λ i. passes (undone (get! secret i)) 256) 14 ≡ true
unfolding passes get!
every_pair = refl

undone_at : (i b : ℕ) → i < 14 → b < 256 → undone (get! secret i) b ≡ true
undone_at i b hi hb =
    let row = passes_at (λ j. passes (undone (get! secret j)) 256) 14 i every_pair hi in
    passes_at (undone (get! secret i)) 256 b row hb

byte_undone :
    (i b : ℕ)
    → b < 256
    → (bit_xor b (get! secret (i % 14)) < 256)
      × (bit_xor (bit_xor b (get! secret (i % 14))) (get! secret (i % 14)) ≡ b)
byte_undone i b h = ground (arith, undone_at (i % 14) b)

xor_from_undone :
    (i : ℕ) (input : Bytes)
    → AreBytes input
    → AreBytes (xor_from secret i input) × (xor_from secret i (xor_from secret i input) ≡ input)
unfolding xor_from
xor_from_undone i [] h = (tt, refl)
xor_from_undone i (b ∷ input) (hb, h) =
    let (fits, same) = byte_undone i b hb in
    let (rest_fits, rest) = xor_from_undone (suc i) input h in ((fits, rest_fits), rw (same, rest))

length-xor_from :
    (key : Bytes) (i : ℕ) (input : Bytes) → length (xor_from key i input) ≡ length input
unfolding xor_from
length-xor_from key i [] = refl
length-xor_from key i (b ∷ input) = ap suc (length-xor_from key (suc i) input)

pub length-xor_cipher : (key input : Bytes) → length (xor_cipher key input) ≡ length input
unfolding xor_cipher
length-xor_cipher key input = length-xor_from key 0 input

pub xor_cipher_undone :
    (input : Bytes)
    → AreBytes input
    → AreBytes (xor_cipher secret input) × (xor_cipher secret (xor_cipher secret input) ≡ input)
unfolding xor_cipher
xor_cipher_undone input h = xor_from_undone 0 input h

-- Where memory is had, encoding gives as many bytes, and decoding what it gives returns the data.
pub decode-encode :
    (input : Bytes)
    → AreBytes input
    → (output : Bytes) × (encode_data true input ≡ some output)
      × (length output ≡ length input)
      × AreBytes output
      × (decode_data true output ≡ some input)
unfolding encode_data decode_data
decode-encode input h =
    let (fits, same) = xor_cipher_undone input h in
    (xor_cipher secret input, refl, length-xor_cipher secret input, fits, ap some same)

get!-xor_from :
    (key input : Bytes) (i j : ℕ)
    → j < length input
    → get! (xor_from key i input) j ≡ bit_xor (get! input j) (get! key ((i + j) % length key))
unfolding xor_from get!
get!-xor_from key [] i j h = absurd (omega arith)
get!-xor_from key (b ∷ input) i zero h = rw (add-zero i)
get!-xor_from key (b ∷ input) i (suc j) h =
    let moved : suc i + j ≡ i + suc j = omega arith in
    rw (← moved) (get!-xor_from key input (suc i) j (omega arith))

-- Byte `j` of the output is byte `j` of the input, XOR byte `j % key_len` of the key.
pub get!-xor_cipher :
    (key input : Bytes) (j : ℕ)
    → j < length input
    → get! (xor_cipher key input) j ≡ bit_xor (get! input j) (get! key (j % length key))
unfolding xor_cipher
get!-xor_cipher key input j h = rw zero-add at (get!-xor_from key input 0 j h)
