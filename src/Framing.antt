-- ===== src/Framing.antt =====
-- brook-quicclient/src/core/brook-framing.js: sealing and opening of Brook frames, and the header.
-- AES-GCM is the Web Crypto API's, a parameter here. A call hands back the nonce, which it changes in
-- place, beside its outcome.
pub mod RoundTrip
pub mod Header
pub mod Tests
use iwa_brook_quic.Base.{
  ℕ, suc, ◌+◌, ◌-◌, ◌*◌, ◌/◌, ◌%◌, ◌^◌, ◌≡◌, bit_and, bit_or, ltb, ◌==◌, if◌then◌else◌, Bool, true,
  false, not, ◌&&◌, Option, none, some, List, [], ◌∷◌, length, replicate,
}
use iwa_brook_quic.Base.Int.{ℤ, pos, negsuc, ◌+ℤ◌, uint32}
use iwa_brook_quic.Bytes.{byte_at, set_at}
use iwa_brook_quic.Nonce.{next_nonce}

-- `subtle.encrypt` and `subtle.decrypt` with a 128-bit tag; `none` is a rejected promise. With a
-- 12-byte nonce encryption succeeds, adds the tag, and decryption undoes it.
pub record Aead (K : Type 0) : Type 0 where
  pub encrypt : K → List ℕ → List ℕ → Option (List ℕ)
  pub decrypt : K → List ℕ → List ℕ → Option (List ℕ)
  pub seals :
      (key : K) (nonce plain : List ℕ)
      → length nonce ≡ 12
      → (c : List ℕ) × (encrypt key nonce plain ≡ some c)
        × (length c ≡ length plain + 16)
        × (decrypt key nonce c ≡ some plain)

pub data FrameError : Type 0 where
  rejected out_of_range : FrameError
  too_long : ℕ → FrameError

pub data Result {ℓ} (A : Type ℓ) : Type ℓ where
  ok : A → Result A
  err : FrameError → Result A

-- An awaited Web Crypto promise, and a `set` that may throw a RangeError.
abbrev pub awaited {ℓ} : {A : Type ℓ} → Option A → FrameError → Result A
awaited none e = err e
awaited (some a) e = ok a

infixl 5 ◌>>=◌
abbrev pub ◌>>=◌ {ℓ κ} : {A : Type ℓ} {B : Type κ} → Result A → (A → Result B) → Result B
ok a >>= f = f a
err e >>= f = err e

-- `new Uint8Array([(payload.length >> 8) & 0xFF, payload.length & 0xFF])`
abbrev pub length_prefix : ℕ → List ℕ
length_prefix len = bit_and (len / 2 ^ 8) 0xff ∷ bit_and len 0xff ∷ []

-- The new frame of 18 bytes and the sealed payload.
unfoldable pub assemble : List ℕ → List ℕ → Option (List ℕ)
assemble sealed_len sealed_payload =
    elim (set_at (replicate (18 + length sealed_payload) 0) 0 sealed_len) [
      | none ↦ none
      | some out ↦ set_at out 18 sealed_payload
    ]

module _ {K : Type 0} (aead : Aead K) where
  open aead use {encrypt, decrypt}

  -- The second half, once the length is sealed.
  seal_payload : K → List ℕ → List ℕ → List ℕ → List ℕ × Result (List ℕ)
  seal_payload key nonce sealed_len payload = (
    next_nonce nonce,
    do
      sealed_payload ← awaited (encrypt key nonce payload) rejected
      awaited (assemble sealed_len sealed_payload) out_of_range,
  )

  unfoldable pub seal_frame : K → List ℕ → List ℕ → List ℕ × Result (List ℕ)
  unfolding seal_payload
  seal_frame key nonce payload =
      let nonce' = next_nonce nonce in
      elim (encrypt key nonce (length_prefix (length payload))) [
        | none ↦ (nonce', err rejected)
        | some sealed_len ↦ seal_payload key nonce' sealed_len payload
      ]

  abbrev checked_length : List ℕ → Result ℕ
  checked_length len_buf =
      let len = bit_or (byte_at len_buf 0 * 2 ^ 8) (byte_at len_buf 1) in
      if ltb (65535 - 16) len then err (too_long len) else ok len

  unfoldable pub open_length : K → List ℕ → List ℕ → List ℕ × Result ℕ
  open_length key nonce chunk18 = (
    next_nonce nonce,
    do len_buf ← awaited (decrypt key nonce chunk18) rejected; checked_length len_buf,
  )

  unfoldable pub open_payload : K → List ℕ → List ℕ → List ℕ × Result (List ℕ)
  open_payload key nonce payload_and_tag =
      (next_nonce nonce, awaited (decrypt key nonce payload_and_tag) rejected)

-- `nowSec % 2`, with the sign of `nowSec`.
abbrev rem_two : ℤ → ℤ
rem_two (pos n) = pos (n % 2)
rem_two (negsuc n) = if suc n % 2 == 0 then pos 0 else negsuc 0

abbrev is_ℤ : ℕ → ℤ → Bool
is_ℤ n (pos m) = m == n
is_ℤ n (negsuc m) = false

-- Even for TCP, odd for UDP.
abbrev stamp : Bool → ℤ → ℤ
stamp true now_sec = if is_ℤ 0 (rem_two now_sec) then now_sec else now_sec +ℤ pos 1
stamp false now_sec = if is_ℤ 1 (rem_two now_sec) then now_sec else now_sec +ℤ pos 1

-- `now_ms` is `Date.now()`, and the offset is already rounded to whole seconds.
pub build_brook_header : ℕ → List ℕ → Bool → ℤ → List ℕ
unfolding ◌+ℤ◌
build_brook_header now_ms dst_bytes is_tcp clock_offset_sec =
    let w = uint32 (stamp is_tcp (pos (now_ms / 1000) +ℤ clock_offset_sec)) in
    bit_and (w / 2 ^ 24) 0xff
    ∷ bit_and (w / 2 ^ 16) 0xff
    ∷ bit_and (w / 2 ^ 8) 0xff
    ∷ bit_and w 0xff
    ∷ dst_bytes
