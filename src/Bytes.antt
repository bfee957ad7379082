-- ===== src/Bytes.antt =====
-- brook-quicclient/src/core/byte-utils.js: byte buffers. A `Uint8Array` is a list of numbers below
-- 256, and a string is the list of its code units.
pub mod Concat
pub mod Words
pub mod Hex
mod Tests
use iwa_brook_quic.Base.{
  ℕ, zero, suc, ◌+◌, ◌-◌, ◌*◌, ◌/◌, ◌%◌, ◌^◌, ◌<◌, bit_and, bit_or, ltb, leb, if◌then◌else◌, Bool,
  ◌&&◌, ◌||◌, Option, none, some, List, [], ◌∷◌, ◌++◌, length, get_or, set, take, drop, replicate,
  All,
}
use iwa_brook_quic.Base.Int.{ℤ, int32}

abbrev pub IsByte : ℕ → Type 0
IsByte b = b < 256

abbrev pub IsBytes : List ℕ → Type 0
IsBytes = All IsByte

-- `buf[i]` as an operand of a bit operation, where a missing element counts as 0.
abbrev pub byte_at : List ℕ → ℕ → ℕ
byte_at buf i = get_or buf i 0

-- `out.set(a, offset)`; `none` is the RangeError of a write past the end.
unfoldable pub set_at : List ℕ → ℕ → List ℕ → Option (List ℕ)
set_at out offset a =
    if leb (offset + length a) (length out)
    then some (take offset out ++ (a ++ drop (offset + length a) out))
    else none

-- `a ? a.length : 0`; `none` is a null or undefined entry.
abbrev entry_length : Option (List ℕ) → ℕ
entry_length none = 0
entry_length (some a) = length a

total_length : List (Option (List ℕ)) → ℕ
total_length [] = 0
total_length (a ∷ arrays) = entry_length a + total_length arrays

copy_all : List (Option (List ℕ)) → List ℕ → ℕ → Option (List ℕ)
copy_all [] out offset = some out
copy_all (none ∷ arrays) out offset = copy_all arrays out offset
copy_all (some [] ∷ arrays) out offset = copy_all arrays out offset
copy_all (some (b ∷ bs) ∷ arrays) out offset = elim (set_at out offset (b ∷ bs)) [
  | none ↦ none
  | some out' ↦ copy_all arrays out' (offset + length (b ∷ bs))
]

pub concat_uint8_arrays : List (Option (List ℕ)) → Option (List ℕ)
unfolding total_length copy_all set_at
concat_uint8_arrays arrays = copy_all arrays (replicate (total_length arrays) 0) 0

unfoldable pub read_uint16_be : List ℕ → ℕ → ℕ
read_uint16_be buf offset = bit_or (byte_at buf offset * 2 ^ 8) (byte_at buf (offset + 1))

-- The buffer after the call, and the offset that it returns.
pub write_uint16_be : List ℕ → ℕ → ℕ → List ℕ × ℕ
write_uint16_be buf val offset = (
  set (set buf offset (bit_and (val % 2 ^ 32 / 2 ^ 8) 0xff)) (offset + 1) (bit_and val 0xff),
  offset + 2,
)

-- `|` makes an int32 of the whole, also after the `>>> 0` of its first operand.
unfoldable pub read_uint32_be : List ℕ → ℕ → ℤ
read_uint32_be buf offset = int32 (
    bit_or
      (bit_or (bit_or (byte_at buf offset * 2 ^ 24) (byte_at buf (offset + 1) * 2 ^ 16))
        (byte_at buf (offset + 2) * 2 ^ 8))
      (byte_at buf (offset + 3)))

pub write_uint32_be : List ℕ → ℕ → ℕ → List ℕ × ℕ
write_uint32_be buf val offset = (
  set
      (set
        (set (set buf offset (bit_and (val % 2 ^ 32 / 2 ^ 24) 0xff)) (offset + 1)
          (bit_and (val % 2 ^ 32 / 2 ^ 16) 0xff))
        (offset + 2) (bit_and (val % 2 ^ 32 / 2 ^ 8) 0xff))
      (offset + 3) (bit_and val 0xff),
  offset + 4,
)

-- A digit's code unit, as `toString` writes it.
abbrev pub digit_char : ℕ → ℕ
digit_char d = if ltb d 10 then 48 + d else 87 + d

radix_loop : ℕ → ℕ → ℕ → List ℕ → List ℕ
radix_loop zero radix n acc = acc
radix_loop (suc fuel) radix n acc =
    let rest = radix_loop fuel radix (n / radix) (digit_char (n % radix) ∷ acc) in
    if ltb n radix then digit_char n ∷ acc else rest

-- `n.toString(radix)`: each round divides by the radix, so n + 1 rounds are enough.
unfoldable pub to_radix : ℕ → ℕ → List ℕ
unfolding radix_loop
to_radix radix n = radix_loop (suc n) radix n []

-- `s.padStart(n, c)`
abbrev pub pad_start : ℕ → ℕ → List ℕ → List ℕ
pad_start n c s = replicate (n - length s) c ++ s

hex_byte : ℕ → List ℕ
hex_byte b = pad_start 2 b'0' (to_radix 16 b)

pub bytes_to_hex : List ℕ → List ℕ
unfolding hex_byte
bytes_to_hex [] = []
bytes_to_hex (b ∷ buf) = hex_byte b ++ bytes_to_hex buf

is_hex_char : ℕ → Bool
is_hex_char c =
    (leb b'0' c && leb c b'9') || (leb b'a' c && leb c b'f') || (leb b'A' c && leb c b'F')

-- `hex.replace(/[^0-9a-fA-F]/g, '')`
strip_non_hex : List ℕ → List ℕ
unfolding is_hex_char
strip_non_hex [] = []
strip_non_hex (c ∷ cs) = if is_hex_char c then c ∷ strip_non_hex cs else strip_non_hex cs

hex_value : ℕ → ℕ
hex_value c = if leb c b'9' then c - b'0' else if leb c b'F' then c - 55 else c - 87

-- Two digits at a time; an odd last digit is dropped.
pair_values : List ℕ → List ℕ
unfolding hex_value
pair_values [] = []
pair_values (c ∷ []) = []
pair_values (c ∷ d ∷ cs) = (hex_value c * 16 + hex_value d) ∷ pair_values cs

pub hex_to_bytes : List ℕ → List ℕ
unfolding strip_non_hex pair_values
hex_to_bytes hex = pair_values (strip_non_hex hex)
