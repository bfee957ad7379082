-- ===== src/Dns/Reader.antt =====
-- Reading a buffer at an offset behind which its bytes are known.
use iwa_brook_quic.Base.{
  ℕ, zero, suc, ◌+◌, ◌-◌, ◌*◌, ◌/◌, ◌%◌, ◌≤◌, ◌<◌, ◌≡◌, ◌∙◌, refl, sym, ap, subst, bit_or, List, [],
  ◌∷◌, ◌++◌, length, drop, get_or, arith, drop-drop, drop-append, length-drop,
}
use iwa_brook_quic.Base.Int.{int32}
use iwa_brook_quic.Bytes.{byte_at, read_uint16_be, read_uint32_be}
use iwa_brook_quic.Bytes.Words.{join8, word_of_bytes}
use iwa_brook_quic.Dns.Message.{word, double_word, ResourceRecord, IsRecord, encode_fields}

-- From this offset on, the buffer holds these bytes.
abbrev pub Holds : List ℕ → ℕ → List ℕ → Type 0
Holds buf offset xs = drop offset buf ≡ xs

get_or-drop : (n i : ℕ) (xs : List ℕ) → get_or (drop n xs) i 0 ≡ get_or xs (n + i) 0
get_or-drop zero i xs = let e : 0 + i ≡ i = omega arith in rw e refl
get_or-drop (suc n) i [] = refl
get_or-drop (suc n) i (x ∷ xs) =
    let e : suc n + i ≡ suc (n + i) = omega arith in rw e (get_or-drop n i xs)

pub read_nth :
    (buf : List ℕ) (offset i : ℕ) (xs : List ℕ)
    → Holds buf offset xs
    → byte_at buf (offset + i) ≡ get_or xs i 0
read_nth buf offset i xs h = sym (get_or-drop offset i buf) ∙ ap (λ ys. get_or ys i 0) h

pub read_byte :
    (buf : List ℕ) (offset x : ℕ) (xs : List ℕ) → Holds buf offset (x ∷ xs) → byte_at buf offset ≡ x
read_byte buf offset x xs h =
    let e : offset ≡ offset + 0 = omega arith in
    ap (byte_at buf) e ∙ read_nth buf offset 0 (x ∷ xs) h

pub read_length :
    (buf : List ℕ) (offset : ℕ) (xs : List ℕ)
    → Holds buf offset xs
    → offset ≤ length buf
    → length buf ≡ offset + length xs
read_length buf offset xs h low =
    let e : length xs ≡ length buf - offset = ap length (sym h) ∙ length-drop offset buf in
    omega (arith, e)

pub read_within :
    (buf : List ℕ) (offset x : ℕ) (xs : List ℕ) → Holds buf offset (x ∷ xs) → offset < length buf
read_within buf offset x xs h =
    let e : suc (length xs) ≡ length buf - offset = ap length (sym h) ∙ length-drop offset buf in
    omega (arith, e)

pub read_past :
    (buf : List ℕ) (offset : ℕ) (xs ys : List ℕ)
    → Holds buf offset (xs ++ ys)
    → Holds buf (offset + length xs) ys
read_past buf offset xs ys h =
    sym (drop-drop offset (length xs) buf) ∙ ap (drop (length xs)) h ∙ drop-append xs ys

pub read_next :
    (buf : List ℕ) (offset x : ℕ) (xs : List ℕ)
    → Holds buf offset (x ∷ xs)
    → Holds buf (offset + 1) xs
read_next buf offset x xs h = sym (drop-drop offset 1 buf) ∙ ap (drop 1) h

add_one : (offset k : ℕ) → offset + k + 1 ≡ offset + (k + 1)
add_one offset k = omega arith

pub read_word :
    (buf : List ℕ) (offset n : ℕ) (xs : List ℕ)
    → Holds buf offset (word n xs)
    → (read_uint16_be buf offset ≡ n) × Holds buf (offset + 2) xs
unfolding read_uint16_be
read_word buf offset n xs h =
    let next = read_next buf offset (n / 256) (n % 256 ∷ xs) h in
    let a = read_byte buf offset (n / 256) (n % 256 ∷ xs) h in
    let b = read_byte buf (offset + 1) (n % 256) xs next in
    (
      rw (a, b) (join8 (n / 256) (n % 256) (omega arith) ∙ omega arith),
      subst (λ o. Holds buf o xs) (add_one offset 1) (read_next buf (offset + 1) (n % 256) xs next),
    )

pub read_double_word :
    (buf : List ℕ) (offset n : ℕ) (xs : List ℕ)
    → n < 4294967296
    → Holds buf offset (double_word n xs)
    → (read_uint32_be buf offset ≡ int32 n) × Holds buf (offset + 4) xs
unfolding read_uint32_be
read_double_word buf offset n xs fits h =
    let a : ℕ = n / 16777216 in
    let b : ℕ = n / 65536 % 256 in
    let c : ℕ = n / 256 % 256 in
    let d : ℕ = n % 256 in
    let h1 : Holds buf (offset + 1) (b ∷ c ∷ d ∷ xs) = read_next buf offset a (b ∷ c ∷ d ∷ xs) h in
    let h2 : Holds buf (offset + 2) (c ∷ d ∷ xs) =
      subst (λ o. Holds buf o (c ∷ d ∷ xs)) (add_one offset 1)
        (read_next buf (offset + 1) b (c ∷ d ∷ xs) h1) in
    let h3 : Holds buf (offset + 3) (d ∷ xs) =
      subst (λ o. Holds buf o (d ∷ xs)) (add_one offset 2)
        (read_next buf (offset + 2) c (d ∷ xs) h2) in
    let united : bit_or (bit_or (bit_or (a * 16777216) (b * 65536)) (c * 256)) d ≡ n =
      word_of_bytes a b c d (omega arith) (omega arith) (omega arith) ∙ omega arith in
    (
      ap int32 (
          rw
            (
              read_byte buf offset a (b ∷ c ∷ d ∷ xs) h,
              read_byte buf (offset + 1) b (c ∷ d ∷ xs) h1,
              read_byte buf (offset + 2) c (d ∷ xs) h2,
              read_byte buf (offset + 3) d xs h3,
            )
            united),
      subst (λ o. Holds buf o xs) (add_one offset 3) (read_next buf (offset + 3) d xs h3),
    )

pub read_no_more :
    (buf : List ℕ) (offset : ℕ) (xs : List ℕ) → Holds buf offset xs → length xs ≤ length buf
read_no_more buf offset xs h =
    let e : length xs ≡ length buf - offset = ap length (sym h) ∙ length-drop offset buf in
    omega (arith, e)

-- The fields of a record behind its name.
pub read_fields :
    (buf : List ℕ) (at : ℕ) (r : ResourceRecord) (behind : List ℕ)
    → IsRecord r
    → Holds buf at (encode_fields r behind)
    → (read_uint16_be buf at ≡ r.type_code)
      × (read_uint32_be buf (at + 4) ≡ int32 r.ttl)
      × (read_uint16_be buf (at + 8) ≡ length r.rdata)
      × (at + 10 ≤ length buf)
      × Holds buf (at + 10) (r.rdata ++ behind)
read_fields buf at r behind ok h =
    let to = λ (o o' : ℕ) (xs : List ℕ) (e : o ≡ o') (p : Holds buf o xs).
      subst (λ k. Holds buf k xs) e p in
    let tail = r.rdata ++ behind in
    let sized = word (length r.rdata) tail in
    let timed = double_word r.ttl sized in
    let (type_code, h2) = read_word buf at r.type_code (word r.class_code timed) h in
    let (class_code, h4) = read_word buf (at + 2) r.class_code timed h2 in
    let (ttl, h8) =
      read_double_word buf (at + 4) r.ttl sized ok.ttl_fits
        (to (at + 2 + 2) (at + 4) timed (omega arith) h4) in
    let h8' : Holds buf (at + 8) sized = to (at + 4 + 4) (at + 8) sized (omega arith) h8 in
    let (size, h10) = read_word buf (at + 8) (length r.rdata) tail h8' in
    let last =
      read_within buf (at + 8 + 1) (length r.rdata % 256) tail
        (read_next buf (at + 8) (length r.rdata / 256) (length r.rdata % 256 ∷ tail) h8') in
    (type_code, ttl, size, omega (arith, last), to (at + 8 + 2) (at + 10) tail (omega arith) h10)
