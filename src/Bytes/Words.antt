-- ===== src/Bytes/Words.antt =====
-- Big-endian words: what is written is read back.
use iwa_brook_quic.Base.{
  ℕ, ◌+◌, ◌*◌, ◌/◌, ◌%◌, ◌^◌, ◌<◌, ◌≡◌, ◌∙◌, bit_and, bit_or, List, length, set, ap, arith,
  length-set, get_or-set_self, get_or-set_ne,
}
use iwa_brook_quic.Base.Bits.{bit_and_255, bit_or_disjoint}
use iwa_brook_quic.Base.Int.{int32}
use iwa_brook_quic.Bytes.{byte_at, read_uint16_be, write_uint16_be, read_uint32_be, write_uint32_be}

pub join8 : (a b : ℕ) → b < 256 → bit_or (a * 256) b ≡ a * 256 + b
join8 a b h = bit_or_disjoint 8 a b h

join16 : (a b : ℕ) → b < 65536 → bit_or (a * 65536) b ≡ a * 65536 + b
join16 a b h = bit_or_disjoint 16 a b h

join24 : (a b : ℕ) → b < 16777216 → bit_or (a * 16777216) b ≡ a * 16777216 + b
join24 a b h = bit_or_disjoint 24 a b h

-- A word written within the buffer reads back as its low 16 bits.
pub read_uint16_be-write_uint16_be :
    (buf : List ℕ) (val offset : ℕ)
    → offset + 1 < length buf
    → read_uint16_be (write_uint16_be buf val offset).0 offset ≡ val % 2 ^ 16
unfolding read_uint16_be write_uint16_be
read_uint16_be-write_uint16_be buf val offset h =
    let hi : ℕ = bit_and (val % 2 ^ 32 / 2 ^ 8) 0xff in
    let lo : ℕ = bit_and val 0xff in
    let buf' = set buf offset hi in
    let first =
      get_or-set_ne buf' (offset + 1) offset lo 0 (omega arith)
      ∙ get_or-set_self buf offset hi 0 (omega arith) in
    let second = get_or-set_self buf' (offset + 1) lo 0 (omega (arith, length-set buf offset hi)) in
    rw (first, second, bit_and_255 (val % 2 ^ 32 / 2 ^ 8), bit_and_255 val)
      (join8 _ _ (omega arith) ∙ omega arith)

-- Four bytes shifted into place and united.
pub word_of_bytes :
    (a b c d : ℕ)
    → b < 256
    → c < 256
    → d < 256
    → bit_or (bit_or (bit_or (a * 16777216) (b * 65536)) (c * 256)) d
      ≡ a * 16777216 + b * 65536 + c * 256 + d
word_of_bytes a b c d hb hc hd =
    let e : a * 16777216 + b * 65536 ≡ (a * 256 + b) * 65536 = omega arith in
    let f : (a * 256 + b) * 65536 + c * 256 ≡ (a * 65536 + b * 256 + c) * 256 = omega arith in
    rw
      (
        join24 a (b * 65536) (omega arith),
        e,
        join16 (a * 256 + b) (c * 256) (omega arith),
        f,
        join8 (a * 65536 + b * 256 + c) d hd,
      )
      (omega arith)

module _ (buf : List ℕ) (o a b c d : ℕ) where
  abbrev first_two : List ℕ
  first_two = set (set buf o a) (o + 1) b

  abbrev all_four : List ℕ
  all_four = set (set first_two (o + 2) c) (o + 3) d

  all_four_bytes :
      o + 3 < length buf
      → (byte_at all_four o ≡ a)
        × (byte_at all_four (o + 1) ≡ b)
        × (byte_at all_four (o + 2) ≡ c)
        × (byte_at all_four (o + 3) ≡ d)
  all_four_bytes fits =
      let two : length first_two ≡ length buf =
        length-set (set buf o a) (o + 1) b ∙ length-set buf o a in
      let three : length (set first_two (o + 2) c) ≡ length buf =
        length-set first_two (o + 2) c ∙ two in
      let past = λ (i : ℕ) (lt : i < o + 2).
        get_or-set_ne (set first_two (o + 2) c) (o + 3) i d 0 (omega arith)
        ∙ get_or-set_ne first_two (o + 2) i c 0 (omega arith) in
      (
        past o (omega arith)
            ∙ get_or-set_ne (set buf o a) (o + 1) o b 0 (omega arith)
            ∙ get_or-set_self buf o a 0 (omega arith),
        past (o + 1) (omega arith)
            ∙ get_or-set_self (set buf o a) (o + 1) b 0 (omega (arith, length-set buf o a)),
        get_or-set_ne (set first_two (o + 2) c) (o + 3) (o + 2) d 0 (omega arith)
            ∙ get_or-set_self first_two (o + 2) c 0 (omega arith),
        get_or-set_self (set first_two (o + 2) c) (o + 3) d 0 (omega arith),
      )

-- A word written within the buffer reads back as the signed 32-bit number with its low 32 bits.
pub read_uint32_be-write_uint32_be :
    (buf : List ℕ) (val offset : ℕ)
    → offset + 3 < length buf
    → read_uint32_be (write_uint32_be buf val offset).0 offset ≡ int32 (val % 2 ^ 32)
unfolding read_uint32_be write_uint32_be
read_uint32_be-write_uint32_be buf val offset h =
    let a : ℕ = bit_and (val % 2 ^ 32 / 2 ^ 24) 0xff in
    let b : ℕ = bit_and (val % 2 ^ 32 / 2 ^ 16) 0xff in
    let c : ℕ = bit_and (val % 2 ^ 32 / 2 ^ 8) 0xff in
    let d : ℕ = bit_and val 0xff in
    let (ea, eb, ec, ed) = all_four_bytes buf offset a b c d h in
    ap int32 (
      rw
        (
          ea,
          eb,
          ec,
          ed,
          bit_and_255 (val % 2 ^ 32 / 2 ^ 24),
          bit_and_255 (val % 2 ^ 32 / 2 ^ 16),
          bit_and_255 (val % 2 ^ 32 / 2 ^ 8),
          bit_and_255 val,
        )
        (word_of_bytes _ _ _ _ (omega arith) (omega arith) (omega arith) ∙ omega arith))
