-- ===== src/Bytes/Hex.antt =====
-- `hexToBytes` undoes `bytesToHex`.
use iwa_brook_quic.Base.{ℕ, zero, suc, ◌/◌, ◌%◌, ◌<◌, ◌≡◌, refl, true, List, [], ◌∷◌, arith}
use iwa_brook_quic.Bytes.{
  IsBytes, digit_char, to_radix, hex_byte, bytes_to_hex, is_hex_char, strip_non_hex, hex_value,
  pair_values, hex_to_bytes,
}

hex_byte-digits : (b : ℕ) → b < 256 → hex_byte b ≡ digit_char (b / 16) ∷ digit_char (b % 16) ∷ []
unfolding hex_byte to_radix
hex_byte-digits zero h = refl
hex_byte-digits (suc b) h = ground arith

hex_char_back :
    (d : ℕ) → d < 16 → (is_hex_char (digit_char d) ≡ true) × (hex_value (digit_char d) ≡ d)
unfolding is_hex_char hex_value
hex_char_back d h = ground arith

strip_pair :
    (d e : ℕ) (cs : List ℕ)
    → d < 16
    → e < 16
    → strip_non_hex (digit_char d ∷ digit_char e ∷ cs)
      ≡ digit_char d ∷ digit_char e ∷ strip_non_hex cs
unfolding strip_non_hex
strip_pair d e cs hd he = rw ((hex_char_back d hd).0, (hex_char_back e he).0)

-- A buffer of bytes is what its hexadecimal text is read back as.
pub hex_to_bytes-bytes_to_hex : (buf : List ℕ) → IsBytes buf → hex_to_bytes (bytes_to_hex buf) ≡ buf
unfolding hex_to_bytes bytes_to_hex pair_values
hex_to_bytes-bytes_to_hex [] h = unfold strip_non_hex in refl
hex_to_bytes-bytes_to_hex (b ∷ buf) h =
    rw
      (
        hex_byte-digits b h.0,
        strip_pair (b / 16) (b % 16) (bytes_to_hex buf) (omega arith) (omega arith),
        (hex_char_back (b / 16) (omega arith)).1,
        (hex_char_back (b % 16) (omega arith)).1,
        hex_to_bytes-bytes_to_hex buf h.1,
      )
      (ground arith)
