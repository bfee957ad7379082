-- ===== src/Dns/Response.antt =====
-- The parsing of a response finds the addresses that it holds.
use iwa_brook_quic.Base.{
  ℕ, zero, suc, ◌+◌, ◌-◌, ◌≤◌, ◌<◌, ◌≡◌, ◌∙◌, refl, sym, ap, subst, ltb, ◌==◌, if◌then◌else◌,
  Bool-cases, inl, inr, true, false, List, [], ◌∷◌, ◌++◌, length, drop, All, arith, append_assoc,
  length-append,
}
use iwa_brook_quic.Base.Bits.{bit_and_192}
use iwa_brook_quic.Base.Int.{int32}
use iwa_brook_quic.Bytes.{byte_at, read_uint16_be, read_uint32_be}
use iwa_brook_quic.Dns.{
  Address, is_pointer, skip_question, skip_labels, over_zero, skip_name, address_at, is_address_at,
  parse_answers, parse_dns_response,
}
use iwa_brook_quic.Dns.Message.{
  IsLabel, encode_labels, RecordName, pointer, labels, IsName, encode_name, ResourceRecord,
  IsRecord, encode_fields, encode_records, address_of, addresses, encode_message,
  with_length_prefix,
}
use iwa_brook_quic.Dns.Reader.{
  Holds, read_byte, read_nth, read_length, read_no_more, read_within, read_past, read_next,
  read_word, read_fields,
}

below_pointers : (b : ℕ) → b < 64 → is_pointer b ≡ false
below_pointers b h = ground (arith, bit_and_192 b)

pointers : (b : ℕ) → 192 ≤ b → b < 256 → is_pointer b ≡ true
pointers b low high = ground (arith, bit_and_192 b)

length-encode_labels : (parts : List (List ℕ)) → length parts ≤ length (encode_labels parts)
unfolding encode_labels
length-encode_labels [] = omega arith
length-encode_labels (part ∷ parts) =
    omega (arith, length-encode_labels parts, length-append part (encode_labels parts))

module _ (buf : List ℕ) where
  label_past :
      (offset : ℕ) (part : List ℕ) (parts : List (List ℕ)) (rest : List ℕ)
      → Holds buf offset (encode_labels (part ∷ parts) ++ rest)
      → (byte_at buf offset ≡ length part)
        × (offset < length buf)
        × Holds buf (offset + 1 + length part) (encode_labels parts ++ rest)
  unfolding encode_labels
  label_past offset part parts rest h =
      let behind = (part ++ encode_labels parts) ++ rest in
      (
        read_byte buf offset (length part) behind h,
        read_within buf offset (length part) behind h,
        read_past buf (offset + 1) part (encode_labels parts ++ rest) (
            read_next buf offset (length part) behind h
            ∙ append_assoc part (encode_labels parts) rest),
      )

  skip_labels-encode_labels :
      (parts : List (List ℕ)) (fuel offset : ℕ) (rest : List ℕ)
      → All IsLabel parts
      → Holds buf offset (encode_labels parts ++ (0 ∷ rest))
      → length parts ≤ fuel
      → skip_labels fuel buf offset ≡ offset + length (encode_labels parts)
  unfolding skip_labels encode_labels
  skip_labels-encode_labels [] zero offset rest ok h enough = omega arith
  skip_labels-encode_labels [] (suc fuel) offset rest ok h enough =
      ground (arith, read_byte buf offset 0 rest h)
  skip_labels-encode_labels (part ∷ parts) zero offset rest ok h enough = absurd (omega arith)
  skip_labels-encode_labels (part ∷ parts) (suc fuel) offset rest ok h enough =
      let (at, within, past) = label_past offset part parts (0 ∷ rest) h in
      let here = ok.0.present in
      let behind =
        skip_labels-encode_labels parts fuel (offset + 1 + length part) rest ok.1 past
          (omega arith) in
      rw at (ground (arith, at, within, here, behind, length-append part (encode_labels parts)))

  skip_question-encode_labels :
      (parts : List (List ℕ)) (fuel offset : ℕ) (rest : List ℕ)
      → All IsLabel parts
      → Holds buf offset (encode_labels parts ++ (0 ∷ rest))
      → length parts ≤ fuel
      → skip_question fuel buf offset ≡ offset + length (encode_labels parts)
  unfolding skip_question encode_labels
  skip_question-encode_labels [] zero offset rest ok h enough = omega arith
  skip_question-encode_labels [] (suc fuel) offset rest ok h enough =
      ground (arith, read_byte buf offset 0 rest h)
  skip_question-encode_labels (part ∷ parts) zero offset rest ok h enough = absurd (omega arith)
  skip_question-encode_labels (part ∷ parts) (suc fuel) offset rest ok h enough =
      let (at, within, past) = label_past offset part parts (0 ∷ rest) h in
      let here = ok.0.present in
      let plain = below_pointers (length part) (omega (arith, ok.0.short)) in
      let behind =
        skip_question-encode_labels parts fuel (offset + 1 + length part) rest ok.1 past
          (omega arith) in
      rw (at, plain)
        (ground (arith, at, within, here, behind, length-append part (encode_labels parts)))

  over_the_zero :
      (offset : ℕ) (rest : List ℕ) → Holds buf offset (0 ∷ rest) → over_zero buf offset ≡ offset + 1
  over_the_zero offset rest h =
      ground (arith, read_byte buf offset 0 rest h, read_within buf offset 0 rest h)

  enough_rounds :
      (parts : List (List ℕ)) (offset : ℕ) (rest : List ℕ)
      → Holds buf offset (encode_labels parts ++ rest)
      → length parts ≤ length buf
  enough_rounds parts offset rest h = omega (
    arith,
    read_no_more buf offset (encode_labels parts ++ rest) h,
    length-append (encode_labels parts) rest,
    length-encode_labels parts,
  )

  not_a_pointer :
      (parts : List (List ℕ)) (offset : ℕ) (rest : List ℕ)
      → All IsLabel parts
      → Holds buf offset (encode_labels parts ++ (0 ∷ rest))
      → is_pointer (byte_at buf offset) ≡ false
  unfolding encode_labels
  not_a_pointer [] offset rest ok h =
      ap is_pointer (read_byte buf offset 0 rest h) ∙ below_pointers 0 (omega arith)
  not_a_pointer (part ∷ parts) offset rest ok h =
      let (at, within, past) = label_past offset part parts (0 ∷ rest) h in
      ap is_pointer at ∙ below_pointers (length part) (omega (arith, ok.0.short))

  skip_name-encode_name :
      (name : RecordName) (offset : ℕ) (rest : List ℕ)
      → IsName name
      → Holds buf offset (encode_name name ++ rest)
      → (skip_name buf offset ≡ offset + length (encode_name name)) × (offset < length buf)
  unfolding skip_name
  skip_name-encode_name (pointer hi lo) offset rest (low, high, fits) h =
      let first = read_byte buf offset hi (lo ∷ rest) h in
      let is = ap is_pointer first ∙ pointers hi low high in
      (rw is refl, read_within buf offset hi (lo ∷ rest) h)
  skip_name-encode_name (labels parts) offset rest ok h' =
      let h = h' ∙ append_assoc (encode_labels parts) (0 ∷ []) rest in
      let is_not = not_a_pointer parts offset rest ok h in
      let end = offset + length (encode_labels parts) in
      let skipped =
        skip_labels-encode_labels parts (length buf) offset rest ok h
          (enough_rounds parts offset (0 ∷ rest) h) in
      let stop = read_past buf offset (encode_labels parts) (0 ∷ rest) h in
      (
        rw (is_not, skipped)
            (over_the_zero end rest stop
              ∙ omega (arith, length-append (encode_labels parts) (0 ∷ []))),
        omega (arith, read_within buf end 0 rest stop),
      )

  -- One record, once its fixed fields are read.
  record_here :
      (at code ttl : ℕ) (rdata rest : List ℕ) (others : List Address)
      → read_uint16_be buf at ≡ code
      → read_uint32_be buf (at + 4) ≡ int32 ttl
      → read_uint16_be buf (at + 8) ≡ length rdata
      → at + 10 ≤ length buf
      → Holds buf (at + 10) (rdata ++ rest)
      → (if is_address_at buf at then address_at buf at ∷ others else others)
        ≡ (if code == 1 then address_of rdata ttl else []) ++ others
  record_here at code ttl [] rest others is_code is_ttl is_length fits h =
      rw (is_code, is_length) (ground arith)
  record_here at code ttl (a ∷ []) rest others is_code is_ttl is_length fits h =
      rw (is_code, is_length) (ground arith)
  record_here at code ttl (a ∷ b ∷ []) rest others is_code is_ttl is_length fits h =
      rw (is_code, is_length) (ground arith)
  record_here at code ttl (a ∷ b ∷ c ∷ []) rest others is_code is_ttl is_length fits h =
      rw (is_code, is_length) (ground arith)
  record_here at code ttl (a ∷ b ∷ c ∷ d ∷ []) rest others is_code is_ttl is_length fits h =
      let xs = a ∷ b ∷ c ∷ d ∷ rest in
      let nth =
        λ (n i : ℕ) (e : n ≡ at + 10 + i). ap (byte_at buf) e ∙ read_nth buf (at + 10) i xs h in
      let b0 : byte_at buf (at + 10) ≡ a = nth (at + 10) 0 (omega arith) in
      let b1 : byte_at buf (at + 11) ≡ b = nth (at + 11) 1 (omega arith) in
      let b2 : byte_at buf (at + 12) ≡ c = nth (at + 12) 2 (omega arith) in
      let b3 : byte_at buf (at + 13) ≡ d = nth (at + 13) 3 (omega arith) in
      let whole = read_length buf (at + 10) xs h fits in
      let inside : ltb (length buf) (at + 14) ≡ false = ground (arith, whole) in
      elim (Bool-cases (code == 1)) [
        | inl e ↦ rw (is_code, is_length, inside, e, b0, b1, b2, b3, is_ttl) refl
        | inr e ↦ rw (is_code, is_length, inside, e) refl
      ]
  record_here at code ttl (a ∷ b ∷ c ∷ d ∷ e ∷ es) rest others is_code is_ttl is_length fits h =
      rw (is_code, is_length) (ground arith)

  parse_answers-encode_records :
      (rs : List ResourceRecord) (offset : ℕ) (rest : List ℕ)
      → All IsRecord rs
      → Holds buf offset (encode_records rs rest)
      → parse_answers (length rs) buf offset ≡ addresses rs
  unfolding parse_answers encode_records addresses
  parse_answers-encode_records [] offset rest ok h = refl
  parse_answers-encode_records (r ∷ rs) offset rest ok h =
      let behind = encode_records rs rest in
      let at = offset + length (encode_name r.name) in
      let (skipped, within) =
        skip_name-encode_name r.name offset (encode_fields r behind) ok.0.named h in
      let h0 = read_past buf offset (encode_name r.name) (encode_fields r behind) h in
      let (is_code, is_ttl, is_length, fits, h10) = read_fields buf at r behind ok.0 h0 in
      let next : Holds buf (at + 10 + read_uint16_be buf (at + 8)) behind =
        subst (λ n. Holds buf (at + 10 + n) behind) (sym is_length)
          (read_past buf (at + 10) r.rdata behind h10) in
      let others =
        parse_answers-encode_records rs (at + 10 + read_uint16_be buf (at + 8)) rest ok.1 next in
      let inside : ltb offset (length buf) ≡ true = ground arith in
      let whole : ltb (length buf) (at + 10) ≡ false = ground arith in
      rw (skipped, inside, whole, others)
        (record_here at r.type_code r.ttl r.rdata behind (addresses rs) is_code is_ttl is_length
          fits h10)

  -- A buffer with the length prefix, the count of the answers, the question and the answers.
  parsed_response :
      (question : List (List ℕ)) (answers : List ResourceRecord) (rest : List ℕ)
      → All IsLabel question
      → All IsRecord answers
      → read_uint16_be buf 0 ≡ length buf - 2
      → read_uint16_be buf 8 ≡ length answers
      → 14 ≤ length buf
      → Holds buf 14 (encode_labels question ++ (0 ∷ 0 ∷ 1 ∷ 0 ∷ 1 ∷ encode_records answers rest))
      → parse_dns_response buf ≡ addresses answers
  unfolding parse_dns_response
  parsed_response question answers rest asked ok prefixed counted long h =
      let tail = 0 ∷ 1 ∷ 0 ∷ 1 ∷ encode_records answers rest in
      let at = 14 + length (encode_labels question) in
      let stop = read_past buf 14 (encode_labels question) (0 ∷ tail) h in
      let skipped =
        skip_question-encode_labels question (length buf) 14 tail asked h
          (enough_rounds question 14 (0 ∷ tail) h) in
      let over = over_the_zero at tail stop in
      let first =
        read_past buf (at + 1) (0 ∷ 1 ∷ 0 ∷ 1 ∷ []) (encode_records answers rest)
          (read_next buf at 0 tail stop) in
      let has_prefix : (read_uint16_be buf 0 == length buf - 2) ≡ true = ground arith in
      let is_long : ltb (length buf) 14 ≡ false = ground arith in
      rw (has_prefix, is_long, skipped, over, counted)
        (parse_answers-encode_records answers (at + 1 + 4) rest ok first)

-- The response to a question of labels of at most 63 bytes each, with any number of answers whose
-- names are pointers or such labels, and of any types, classes and data: what is parsed, with the
-- length prefix, are exactly the addresses of its A records of four bytes, in order.
pub parse_dns_response-encode_message :
    (id flags authorities others : ℕ) (question : List (List ℕ)) (answers : List ResourceRecord)
    (rest : List ℕ)
    → All IsLabel question
    → All IsRecord answers
    → parse_dns_response
        (with_length_prefix (encode_message id flags authorities others question answers rest))
      ≡ addresses answers
parse_dns_response-encode_message id flags authorities others question answers rest asked ok =
    let message = encode_message id flags authorities others question answers rest in
    let buf = with_length_prefix message in
    let tail = 0 ∷ 1 ∷ 0 ∷ 1 ∷ encode_records answers rest in
    let asked_at : Holds buf 14 (encode_labels question ++ (0 ∷ tail)) =
      append_assoc (encode_labels question) (0 ∷ []) tail in
    parsed_response buf question answers rest asked ok
      ((read_word buf 0 (length message) message refl).0 ∙ omega arith)
      (read_word buf 8 (length answers) (drop 10 buf) refl).0 (omega arith) asked_at
