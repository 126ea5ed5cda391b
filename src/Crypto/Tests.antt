-- ===== src/Crypto/Tests.antt =====
-- The theorems on src/crypto.c at two bytes.
use os_lab.Prelude.{[], ◌∷◌, Bytes, byte_inhabited}

abbrev two : Bytes
two = 65 ∷ 255 ∷ []
