-- ===== src/Dns/Query.antt =====
-- The query that is built, beside the message of RFC 1035 that it stands for.
use iwa_brook_quic.Base.{
  ℕ, ◌/◌, ◌%◌, ◌^◌, ◌≤◌, ◌<◌, ◌≡◌, ◌∙◌, refl, sym, ap, bit_and, List, [], ◌∷◌, ◌++◌, map, length,
  All, All-append, arith, append_assoc, length-append,
}
use iwa_brook_quic.Base.Bits.{bit_and_255}
use iwa_brook_quic.Bytes.{IsByte, IsBytes}
use iwa_brook_quic.Dns.{split_dots, qname_of, to_uint8, build_dns_query}
use iwa_brook_quic.Dns.Message.{
  IsLabel, encode_labels, encode_message, encode_records, word, with_length_prefix,
}

-- The parts of a name, as they are sent.
abbrev pub parts_of : (List ℕ → List ℕ) → List ℕ → List (List ℕ)
parts_of encode domain = map encode (split_dots domain)

to_uint8_same : (xs : List ℕ) → IsBytes xs → to_uint8 xs ≡ xs
to_uint8_same [] h = refl
to_uint8_same (x ∷ xs) h =
    let e : x % 256 ≡ x = omega (arith, h.0) in rw (e, to_uint8_same xs h.1) refl

qname_of-encode_labels :
    (encode : List ℕ → List ℕ) (parts : List (List ℕ))
    → qname_of encode parts ≡ encode_labels (map encode parts) ++ (0 ∷ [])
unfolding qname_of encode_labels
qname_of-encode_labels encode [] = refl
qname_of-encode_labels encode (part ∷ parts) =
    let p = encode part in
    ap (λ xs. length p ∷ (p ++ xs)) (qname_of-encode_labels encode parts)
    ∙ ap (◌∷◌ (length p)) (sym (append_assoc p (encode_labels (map encode parts)) (0 ∷ [])))

encode_labels-IsBytes :
    (parts : List (List ℕ)) → All IsLabel parts → All IsBytes parts → IsBytes (encode_labels parts)
unfolding encode_labels
encode_labels-IsBytes [] labelled bytes = tt
encode_labels-IsBytes (part ∷ parts) labelled bytes = (
  omega (arith, labelled.0.short),
  All-append IsByte part (encode_labels parts) bytes.0
      (encode_labels-IsBytes parts labelled.1 bytes.1),
)

abbrev prefixed : List ℕ → List ℕ
prefixed query = bit_and (length query / 2 ^ 8) 0xff ∷ bit_and (length query) 0xff ∷ query

prefixed-word : (query : List ℕ) → length query < 65536 → prefixed query ≡ word (length query) query
prefixed-word query fits =
    let hi : bit_and (length query / 256) 0xff ≡ length query / 256 =
      bit_and_255 (length query / 256) ∙ omega arith in
    rw (hi, bit_and_255 (length query)) refl

-- For a 16-bit id and a name whose parts are encoded to 1 to 63 bytes each, at most 65000 with their
-- lengths: the query is the message, with its length prefix, that asks with recursion desired for
-- the addresses of the name.
pub build_dns_query-encode_message :
    (encode : List ℕ → List ℕ) (id : ℕ) (domain : List ℕ)
    → id < 65536
    → All IsLabel (parts_of encode domain)
    → All IsBytes (parts_of encode domain)
    → length (encode_labels (parts_of encode domain)) ≤ 65000
    → build_dns_query encode id domain
      ≡ with_length_prefix (encode_message id 256 0 0 (parts_of encode domain) [] [])
unfolding build_dns_query encode_records
build_dns_query-encode_message encode id domain small labelled bytes fits =
    let parts = parts_of encode domain in
    let name : List ℕ = encode_labels parts ++ (0 ∷ []) in
    let question : List ℕ = name ++ (0 ∷ 1 ∷ 0 ∷ 1 ∷ []) in
    let tail : List ℕ = 0 ∷ 1 ∷ 0 ∷ 1 ∷ [] in
    let rest : List ℕ = 1 ∷ 0 ∷ 0 ∷ 1 ∷ 0 ∷ 0 ∷ 0 ∷ 0 ∷ 0 ∷ 0 ∷ question in
    let named = qname_of-encode_labels encode (split_dots domain) in
    let name_bytes : IsBytes name =
      All-append IsByte (encode_labels parts) (0 ∷ []) (encode_labels-IsBytes parts labelled bytes)
        (omega arith, tt) in
    let asked : to_uint8 (qname_of encode (split_dots domain) ++ tail) ≡ question =
      ap (λ xs. to_uint8 (xs ++ tail)) named
      ∙ to_uint8_same question (
          All-append IsByte name tail name_bytes
            (omega arith, (omega arith, (omega arith, (omega arith, tt))))) in
    let hi : bit_and (id / 256) 0xff % 256 ≡ id / 256 = omega (arith, bit_and_255 (id / 256)) in
    let lo : bit_and id 0xff % 256 ≡ id % 256 = omega (arith, bit_and_255 id) in
    let whole : length (id / 256 ∷ id % 256 ∷ rest) < 65536 =
      omega (arith, length-append name tail, length-append (encode_labels parts) (0 ∷ [])) in
    rw (hi, lo, asked) (prefixed-word (id / 256 ∷ id % 256 ∷ rest) whole)
