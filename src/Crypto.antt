-- ===== src/Crypto.antt =====
-- include/crypto.h and src/crypto.c: the XOR cipher with a fixed key.
pub mod Laws
pub mod Bijection
mod Tests
use Prim.Native.Nat.{bit_xor}
use os_lab.Prelude.{
  ℕ, suc, ◌%◌, Bool, [], ◌∷◌, Option, none, some, Bytes, codes, length, get!, byte_inhabited,
  if◌then◌else◌,
}

-- The loop from index `i` on.
pub xor_from : Bytes → ℕ → Bytes → Bytes
xor_from key i [] = []
xor_from key i (b ∷ input) = bit_xor b (get! key (i % length key)) ∷ xor_from key (suc i) input

-- `xor_cipher(input, output, len, key)`: the output.
unfoldable pub xor_cipher : Bytes → Bytes → Bytes
unfolding xor_from get!
xor_cipher key input = xor_from key 0 input

abbrev pub secret : Bytes
secret = codes "MySecretKey123"

-- `allocated` says whether `malloc` succeeded; `none` is NULL.
unfoldable pub encode_data : Bool → Bytes → Option Bytes
encode_data allocated input = if allocated then some (xor_cipher secret input) else none

unfoldable pub decode_data : Bool → Bytes → Option Bytes
decode_data allocated input = encode_data allocated input
