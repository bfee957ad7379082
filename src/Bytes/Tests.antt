-- ===== src/Bytes/Tests.antt =====
-- Runs of byte-utils.js on concrete inputs, and its theorems there.
use iwa_brook_quic.Base.{◌%◌, ◌^◌, ◌≡◌, refl, some, none, [], ◌∷◌, arith}
use iwa_brook_quic.Base.Int.{negsuc, int32}
use iwa_brook_quic.Bytes.{
  concat_uint8_arrays, to_radix, bytes_to_hex, hex_to_bytes, read_uint32_be, write_uint32_be,
}
use iwa_brook_quic.Bytes.Words.{read_uint32_be-write_uint32_be}

concat_run :
    concat_uint8_arrays (some (1 ∷ 2 ∷ []) ∷ none ∷ some [] ∷ some (3 ∷ []) ∷ [])
    ≡ some (1 ∷ 2 ∷ 3 ∷ [])
unfolding concat_uint8_arrays
concat_run = refl

hex_run : bytes_to_hex (0 ∷ 10 ∷ 255 ∷ []) ≡ 48 ∷ 48 ∷ 48 ∷ 97 ∷ 102 ∷ 102 ∷ []
unfolding bytes_to_hex to_radix
hex_run = refl

unhex_run : hex_to_bytes (48 ∷ 65 ∷ 32 ∷ 102 ∷ 70 ∷ 49 ∷ []) ≡ 10 ∷ 255 ∷ []
unfolding hex_to_bytes
unhex_run = refl

read_run : read_uint32_be (255 ∷ 255 ∷ 255 ∷ 254 ∷ []) 0 ≡ negsuc 1
unfolding read_uint32_be
read_run = refl

read_uint32_be-write_uint32_be_example :
    read_uint32_be (write_uint32_be (0 ∷ 0 ∷ 0 ∷ 0 ∷ []) 4294967295 0).0 0
    ≡ int32 (4294967295 % 2 ^ 32)
read_uint32_be-write_uint32_be_example =
    read_uint32_be-write_uint32_be (0 ∷ 0 ∷ 0 ∷ 0 ∷ []) 4294967295 0 (omega arith)
