-- ===== src/Dns.antt =====
-- brook-quicclient/src/core/dns-resolver.js: the query that is sent, and the parsing of the response.
pub mod Message
pub mod Query
pub mod Reader
pub mod Response
pub mod Resolver
mod Tests
use iwa_brook_quic.Base.{
  ℕ, zero, suc, ◌+◌, ◌-◌, ◌/◌, ◌%◌, ◌^◌, bit_and, ltb, ◌==◌, if◌then◌else◌, Bool, true, false, not,
  ◌&&◌, ◌||◌, List, [], ◌∷◌, ◌++◌, map, length,
}
use iwa_brook_quic.Base.Int.{ℤ}
use iwa_brook_quic.Bytes.{byte_at, read_uint16_be, read_uint32_be, to_radix}

-- An entry of the parsed list.
pub record Address : Type 0 where
  pub ip : List ℕ
  pub ttl : ℤ

-- `domain.split('.')`
abbrev pub onto_first : ℕ → List (List ℕ) → List (List ℕ)
onto_first c [] = (c ∷ []) ∷ []
onto_first c (part ∷ parts) = (c ∷ part) ∷ parts

unfoldable pub split_dots : List ℕ → List (List ℕ)
split_dots [] = [] ∷ []
split_dots (c ∷ cs) = if c == b'.' then [] ∷ split_dots cs else onto_first c (split_dots cs)

-- `encode` is that of `TextEncoder`.
unfoldable pub qname_of : (List ℕ → List ℕ) → List (List ℕ) → List ℕ
qname_of encode [] = 0 ∷ []
qname_of encode (part ∷ parts) = (length (encode part) ∷ encode part) ++ qname_of encode parts

-- The elements of a `Uint8Array` are the numbers modulo 256.
abbrev pub to_uint8 : List ℕ → List ℕ
to_uint8 xs = map (λ x. x % 256) xs

-- `id` is the random number of the query.
unfoldable pub build_dns_query : (List ℕ → List ℕ) → ℕ → List ℕ → List ℕ
build_dns_query encode id domain =
    let flags : ℕ = 0x0100 in
    let header =
      bit_and (id / 2 ^ 8) 0xff
      ∷ bit_and id 0xff
      ∷ bit_and (flags / 2 ^ 8) 0xff
      ∷ bit_and flags 0xff
      ∷ 0
      ∷ 1
      ∷ 0
      ∷ 0
      ∷ 0
      ∷ 0
      ∷ 0
      ∷ 0
      ∷ [] in
    let question = qname_of encode (split_dots domain) ++ (0 ∷ 1 ∷ 0 ∷ 1 ∷ []) in
    let query = to_uint8 (header ++ question) in
    bit_and (length query / 2 ^ 8) 0xff ∷ bit_and (length query) 0xff ∷ query

abbrev pub is_pointer : ℕ → Bool
is_pointer b = bit_and b 0xc0 == 0xc0

-- The loop over the labels of the question, up to its end or behind a pointer. Each round moves on,
-- so as many rounds as there are bytes are enough.
unfoldable pub skip_question : ℕ → List ℕ → ℕ → ℕ
skip_question zero buf offset = offset
skip_question (suc fuel) buf offset =
    let rest = skip_question fuel buf (offset + 1 + byte_at buf offset) in
    if not (ltb offset (length buf)) || byte_at buf offset == 0
    then offset
    else if is_pointer (byte_at buf offset)
    then offset + 2
    else rest

-- The loop over the labels of an answer's name, which knows no pointers.
unfoldable pub skip_labels : ℕ → List ℕ → ℕ → ℕ
skip_labels zero buf offset = offset
skip_labels (suc fuel) buf offset =
    let rest = skip_labels fuel buf (offset + 1 + byte_at buf offset) in
    if not (ltb offset (length buf)) || byte_at buf offset == 0 then offset else rest

-- Over a 0 that is there.
abbrev pub over_zero : List ℕ → ℕ → ℕ
over_zero buf offset =
    if ltb offset (length buf) && byte_at buf offset == 0 then offset + 1 else offset

unfoldable pub skip_name : List ℕ → ℕ → ℕ
skip_name buf offset =
    if is_pointer (byte_at buf offset)
    then offset + 2
    else over_zero buf (skip_labels (length buf) buf offset)

-- An octet in decimal digits.
abbrev pub dotted : ℕ → ℕ → ℕ → ℕ → List ℕ
dotted a b c d =
    to_radix 10 a ++ (b'.' ∷ to_radix 10 b ++ (b'.' ∷ to_radix 10 c ++ (b'.' ∷ to_radix 10 d)))

-- The word of the `ttl` is put together as in `readUInt32BE`.
abbrev pub address_at : List ℕ → ℕ → Address
address_at buf offset = record {
  ip =
      dotted (byte_at buf (offset + 10)) (byte_at buf (offset + 11)) (byte_at buf (offset + 12))
        (byte_at buf (offset + 13));
  ttl = read_uint32_be buf (offset + 4);
}

-- Type A, with four bytes that are there.
abbrev pub is_address_at : List ℕ → ℕ → Bool
is_address_at buf offset =
    read_uint16_be buf offset == 1
    && read_uint16_be buf (offset + 8) == 4
    && not (ltb (length buf) (offset + 14))

unfoldable pub parse_answers : ℕ → List ℕ → ℕ → List Address
parse_answers zero buf offset = []
parse_answers (suc n) buf offset =
    let at = skip_name buf offset in
    let rest = parse_answers n buf (at + 10 + read_uint16_be buf (at + 8)) in
    if not (ltb offset (length buf)) || ltb (length buf) (at + 10)
    then []
    else if is_address_at buf at
    then address_at buf at ∷ rest
    else rest

-- The length prefix is skipped where it is there.
abbrev pub message_start : List ℕ → ℕ
message_start buf = if read_uint16_be buf 0 == length buf - 2 then 2 else 0

unfoldable pub parse_dns_response : List ℕ → List Address
parse_dns_response buf =
    let start = message_start buf in
    let answers = over_zero buf (skip_question (length buf) buf (start + 12)) + 4 in
    if ltb (length buf) 14 then [] else parse_answers (read_uint16_be buf (start + 6)) buf answers
