-- ===== src/Framing/RoundTrip.antt =====
-- What `sealFrame` writes, `openLength` and `openPayload` read back, in step with the nonce.
use iwa_brook_quic.Base.{
  ℕ, ◌+◌, ◌*◌, ◌/◌, ◌%◌, ◌^◌, ◌≤◌, ◌<◌, ◌≡◌, ◌∙◌, ap, subst, append-nil, append_assoc, bit_and,
  bit_or, ltb, le→ltb, lt→ltb, if◌then◌else◌, some, List, [], ◌++◌, length, take, drop, replicate,
  arith, length-append, take-append, drop-append,
}
use iwa_brook_quic.Base.Bits.{bit_and_255, bit_or_disjoint}
use iwa_brook_quic.Bytes.{set_at}
use iwa_brook_quic.Bytes.Concat.{set_at_front}
use iwa_brook_quic.Nonce.{next_nonce}
use iwa_brook_quic.Nonce.Counter.{IsNonce, next_nonce-counter}
use iwa_brook_quic.Framing.{
  Aead, Result, ok, err, too_long, assemble, length_prefix, seal_frame, seal_payload, open_length,
  open_payload,
}

pub assemble-append : (a b : List ℕ) → length a ≡ 18 → assemble a b ≡ some (a ++ b)
unfolding assemble
assemble-append a b h =
    let m = length b in
    let first : set_at (replicate (18 + m) 0) 0 a ≡ some (a ++ replicate m 0) =
      subst (λ n. set_at (replicate (n + m) 0) 0 a ≡ some (a ++ replicate m 0)) h
        (set_at_front [] a m) in
    let e : m + 0 ≡ m = omega arith in
    let second : set_at (a ++ replicate m 0) 18 b ≡ some (a ++ b) =
      subst (λ n. set_at (a ++ replicate m 0) n b ≡ some (a ++ b)) h
        (subst (λ n. set_at (a ++ replicate n 0) (length a) b ≡ some (a ++ b)) e
          (set_at_front a b 0 ∙ ap some (append-nil (a ++ b)))) in
    rw (first, assemble) second

-- The length that the prefix spells, for any buffer of less than 64 KiB.
pub prefix_length :
    (len : ℕ) → len < 2 ^ 16 → bit_or (bit_and (len / 2 ^ 8) 0xff * 2 ^ 8) (bit_and len 0xff) ≡ len
prefix_length len h =
    rw (bit_and_255 (len / 2 ^ 8), bit_and_255 len)
      (bit_or_disjoint 8 (len / 256 % 256) (len % 256) (omega arith) ∙ omega arith)

module _ {K : Type 0} (aead : Aead K) (key : K) (nonce payload : List ℕ)
    (shape : IsNonce nonce) where
  open aead use {seals}

  abbrev sealed_length : List ℕ
  sealed_length = (seals key nonce (length_prefix (length payload)) shape.0).0

  abbrev sealed_payload : List ℕ
  sealed_payload = (seals key (next_nonce nonce) payload (next_nonce-counter nonce shape).2.0).0

  -- The frame on the wire.
  abbrev pub frame : List ℕ
  frame = sealed_length ++ sealed_payload

  length-sealed_length : length sealed_length ≡ 18
  length-sealed_length = (seals key nonce (length_prefix (length payload)) shape.0).2

  length-sealed_payload : length sealed_payload ≡ length payload + 16
  length-sealed_payload =
      (seals key (next_nonce nonce) payload (next_nonce-counter nonce shape).2.0).2

  pub seal_frame-frame :
      seal_frame aead key nonce payload ≡ (next_nonce (next_nonce nonce), ok frame)
  unfolding seal_frame
  seal_frame-frame = rw (
    (seals key nonce (length_prefix (length payload)) shape.0).1,
    seal_frame,
    (seals key (next_nonce nonce) payload (next_nonce-counter nonce shape).2.0).1,
    seal_payload,
    assemble-append sealed_length sealed_payload length-sealed_length,
  )

  pub length-frame : length frame ≡ length payload + 34
  length-frame = omega (
    arith,
    length-append sealed_length sealed_payload,
    length-sealed_length,
    length-sealed_payload,
  )

  abbrev prefix_opens : (n : ℕ) → Result ℕ
  prefix_opens n = if ltb 65519 n then err (too_long n) else ok n

  -- The first 18 bytes give the length, or the error of one that is over the limit.
  pub open_length-frame :
      (rest : List ℕ)
      → length payload < 2 ^ 16
      → open_length aead key nonce (take 18 (frame ++ rest))
        ≡ (next_nonce nonce, prefix_opens (length payload))
  unfolding open_length
  open_length-frame rest small =
      let whole : take 18 (frame ++ rest) ≡ sealed_length =
        subst (λ n. take n (frame ++ rest) ≡ sealed_length) length-sealed_length
          (rw (append_assoc sealed_length sealed_payload rest)
            (take-append sealed_length (sealed_payload ++ rest))) in
      rw (
        whole,
        (seals key nonce (length_prefix (length payload)) shape.0).3,
        prefix_length (length payload) small,
      )

  -- The bytes behind them, as many as the length says and 16 more, give the payload.
  pub open_payload-frame :
      (rest : List ℕ)
      → open_payload aead key
          (next_nonce nonce)
          (take (length payload + 16) (drop 18 (frame ++ rest)))
        ≡ (next_nonce (next_nonce nonce), ok payload)
  unfolding open_payload
  open_payload-frame rest =
      let behind : drop 18 (frame ++ rest) ≡ sealed_payload ++ rest =
        subst (λ n. drop n (frame ++ rest) ≡ sealed_payload ++ rest) length-sealed_length
          (rw (append_assoc sealed_length sealed_payload rest)
            (drop-append sealed_length (sealed_payload ++ rest))) in
      let whole : take (length payload + 16) (sealed_payload ++ rest) ≡ sealed_payload =
        subst (λ n. take n (sealed_payload ++ rest) ≡ sealed_payload) length-sealed_payload
          (take-append sealed_payload rest) in
      rw (
        behind,
        whole,
        (seals key (next_nonce nonce) payload (next_nonce-counter nonce shape).2.0).3,
      )

-- With a nonce of 12 bytes, a payload of at most 65519 bytes is sealed to a frame of 34 more bytes;
-- the receiver that starts from the same nonce reads its length off the first 18 bytes and its text off the rest, whatever
-- follows, and both ends are left with the same nonce.
pub seal-open :
    {K : Type 0} (aead : Aead K) (key : K) (nonce payload rest : List ℕ)
    → IsNonce nonce
    → length payload ≤ 65519
    → (frame : List ℕ) × (seal_frame aead key nonce payload
        ≡ (next_nonce (next_nonce nonce), ok frame))
      × (length frame ≡ length payload + 34)
      × (open_length aead key nonce (take 18 (frame ++ rest))
          ≡ (next_nonce nonce, ok (length payload)))
      × (open_payload aead key
            (next_nonce nonce)
            (take (length payload + 16) (drop 18 (frame ++ rest)))
          ≡ (next_nonce (next_nonce nonce), ok payload))
seal-open aead key nonce payload rest shape small = (
  frame aead key nonce payload shape,
  seal_frame-frame aead key nonce payload shape,
  length-frame aead key nonce payload shape,
  open_length-frame aead key nonce payload shape rest (omega arith)
      ∙ rw (le→ltb 65519 (length payload) small),
  open_payload-frame aead key nonce payload shape rest,
)

-- With a nonce of 12 bytes, a payload of 65520 to 65535 bytes is sealed all the same, and the
-- receiver refuses its length.
pub seal-open_too_long :
    {K : Type 0} (aead : Aead K) (key : K) (nonce payload rest : List ℕ)
    → IsNonce nonce
    → 65519 < length payload
    → length payload < 2 ^ 16
    → (frame : List ℕ) × (seal_frame aead key nonce payload
        ≡ (next_nonce (next_nonce nonce), ok frame))
      × (open_length aead key nonce (take 18 (frame ++ rest))
          ≡ (next_nonce nonce, err (too_long (length payload))))
seal-open_too_long aead key nonce payload rest shape large small = (
  frame aead key nonce payload shape,
  seal_frame-frame aead key nonce payload shape,
  open_length-frame aead key nonce payload shape rest small
      ∙ rw (lt→ltb 65519 (length payload) large),
)
