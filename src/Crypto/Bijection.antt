-- ===== src/Crypto/Bijection.antt =====
-- The cipher of src/crypto.c as a function on the type of buffers.
use mathlib.Core.Equiv.{IsEquiv, iso_to_equiv}
use mathlib.Core.HLevel.{Σ_prop_path}
use native.Mathlib.Bridge.{le_prop}
use os_lab.Prelude.{◌≡◌, refl, true, some, Bytes, AreBytes, All-prop}
use os_lab.Crypto.{xor_cipher, secret, encode_data, decode_data}
use os_lab.Crypto.Laws.{xor_cipher_undone}

-- What a C buffer holds: a list of bytes.
abbrev pub Buffer : Type 0
Buffer = (b : Bytes) × AreBytes b

AreBytes-prop : (b : Bytes) → IsProp (AreBytes b)
AreBytes-prop b = All-prop _ (λ x. le_prop) b

Buffer-path : (x y : Buffer) → x.0 ≡ y.0 → x ≡ y
Buffer-path x y h = Σ_prop_path AreBytes-prop h

-- The cipher with the fixed key gives bytes for bytes.
abbrev pub ciphered : Buffer → Buffer
ciphered (b, bytes) = (xor_cipher secret b, (xor_cipher_undone b bytes).0)

ciphered-ciphered : (x : Buffer) → ciphered (ciphered x) ≡ x
ciphered-ciphered (b, bytes) = Buffer-path _ (b, bytes) (xor_cipher_undone b bytes).1

-- The cipher is a bijection of the buffers of bytes, which encode_data and decode_data both carry out
-- where memory is there: no two buffers are stored alike, and any bytes on the disk decode to exactly
-- one buffer that is stored as them.
pub encode_data-IsEquiv :
    IsEquiv ciphered
    × ((x : Buffer) → encode_data true x.0 ≡ some (ciphered x).0)
    × ((x : Buffer) → decode_data true x.0 ≡ some (ciphered x).0)
unfolding encode_data decode_data
encode_data-IsEquiv = (
  (iso_to_equiv (record {
    fun = ciphered;
    inv = ciphered;
    rinv = ciphered-ciphered;
    linv = ciphered-ciphered;
  })).1,
  λ (b, bytes). refl,
  λ (b, bytes). refl,
)
