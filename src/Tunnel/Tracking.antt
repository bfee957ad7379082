-- ===== src/Tunnel/Tracking.antt =====
-- How the receive side's variables stand for a decoder and the bytes that it has not seen.
use iwa_brook_quic.Base.{
  ℕ, ◌+◌, ◌≤◌, ◌<◌, ◌≡◌, ◌∙◌, refl, sym, ap, Bool, true, false, Option, none, some, List, [], ◌∷◌,
  ◌++◌, length, take, drop, arith, append-nil, append_assoc, length-append, take-append_le,
  drop-append_le,
}
use iwa_brook_quic.Framing.{Aead, Result, ok}
use iwa_brook_quic.Tunnel.State.{Item}
use iwa_brook_quic.Tunnel.Decode.{cipher_open_length, cipher_open_payload}
use iwa_brook_quic.Tunnel.Decoder.{
  Decoder, awaiting_nonce, awaiting_length, awaiting_payload, broken, with_key, with_length,
  with_payload, output, wanted, consume, Runs, IsStuck, Runs-append, Runs-step,
}

abbrev pub queue_chunks : List Item → List ℕ
queue_chunks [] = []
queue_chunks (item ∷ queue) = item.chunk ++ queue_chunks queue

pub queue_chunks-append :
    (q r : List Item) → queue_chunks (q ++ r) ≡ queue_chunks q ++ queue_chunks r
queue_chunks-append [] r = refl
queue_chunks-append (item ∷ q) r =
    ap (◌++◌ item.chunk) (queue_chunks-append q r)
    ∙ sym (append_assoc item.chunk (queue_chunks q) (queue_chunks r))

module _ {K : Type 0} where
  -- The decoder, by `serverHandshakeDone`, `serverCipher`, `sn` and `expectedPayloadLen`.
  abbrev pub decoder_of : Bool → Option K → List ℕ → Option ℕ → Decoder K
  decoder_of false cipher sn expected = awaiting_nonce
  decoder_of true none sn expected = broken
  decoder_of true (some key) sn none = awaiting_length key sn
  decoder_of true (some key) sn (some len) = awaiting_payload key sn len

  abbrev pub opened_length : Option K → List ℕ → Result ℕ → Decoder K
  opened_length none sn r = broken
  opened_length (some key) sn r = with_length key sn r

  abbrev pub opened_payload : Option K → List ℕ → Result (List ℕ) → Decoder K
  opened_payload none sn r = broken
  opened_payload (some key) sn r = with_payload key sn r

  abbrev pub HasKey : Option K → Type 0
  HasKey none = ⊥
  HasKey (some key) = Unit {0}

module _ {K : Type 0} (aead : Aead K) (derive : List ℕ → Option K) (seen : List ℕ) where
  -- The bytes seen make the decoder write `written`, and leave it so with `rest`.
  abbrev pub Reads : List ℕ → Decoder K → List ℕ → Type 0
  Reads written d rest = Runs aead derive awaiting_nonce seen written d rest

  Reads-on :
      {d : Decoder K} (written xs queue : List ℕ) (n : ℕ)
      → Reads written d (xs ++ queue)
      → wanted d ≡ some n
      → n ≤ length xs
      → Reads
          (written ++ (consume aead derive d (take n xs)).1)
          (consume aead derive d (take n xs)).0
          (drop n xs ++ queue)
  Reads-on {d} written xs queue n r w fits = Runs-append aead derive r (
      rw (← drop-append_le n xs queue fits) (
        Runs-step aead derive n w (omega (arith, length-append xs queue))
          (rw (take-append_le n xs queue fits))))

  pub read_nonce :
      (written buffer queue : List ℕ)
      → Reads written awaiting_nonce (buffer ++ queue)
      → 12 ≤ length buffer
      → Reads written
          (with_key (derive (take 12 buffer)) (take 12 buffer))
          (drop 12 buffer ++ queue)
  unfolding consume
  read_nonce written buffer queue r fits =
      rw append-nil at (Reads-on written buffer queue 12 r refl fits)

  pub read_length :
      (cipher : Option K) (sn written xs queue : List ℕ)
      → HasKey cipher
      → Reads written (decoder_of true cipher sn none) (xs ++ queue)
      → 18 ≤ length xs
      → Reads written
          (opened_length cipher
            (cipher_open_length aead cipher sn (take 18 xs)).0
            (cipher_open_length aead cipher sn (take 18 xs)).1)
          (drop 18 xs ++ queue)
  unfolding consume
  read_length none sn written xs queue k r fits = absurd k
  read_length (some key) sn written xs queue k r fits =
      rw append-nil at (Reads-on written xs queue 18 r refl fits)

  pub read_payload :
      (cipher : Option K) (sn : List ℕ) (len : ℕ) (written xs queue : List ℕ)
      → HasKey cipher
      → Reads written (decoder_of true cipher sn (some len)) (xs ++ queue)
      → len + 16 ≤ length xs
      → Reads
          (written ++ output (cipher_open_payload aead cipher sn (take (len + 16) xs)).1)
          (opened_payload cipher
            (cipher_open_payload aead cipher sn (take (len + 16) xs)).0
            (cipher_open_payload aead cipher sn (take (len + 16) xs)).1)
          (drop (len + 16) xs ++ queue)
  unfolding consume
  read_payload none sn len written xs queue k r fits = absurd k
  read_payload (some key) sn len written xs queue k r fits =
      Reads-on written xs queue (len + 16) r refl fits

-- The decoder once the handshake is done, by the expected length; and when it is short of bytes.
module _ {K : Type 0} where
  pub decoder_of_expected :
      (h : Bool) (cipher : Option K) (sn : List ℕ) (expected other : Option ℕ)
      → h ≡ true
      → expected ≡ other
      → decoder_of h cipher sn expected ≡ decoder_of true cipher sn other
  decoder_of_expected h cipher sn expected other done e =
      ap (λ b. decoder_of b cipher sn expected) done ∙ ap (decoder_of true cipher sn) e

  pub length-IsStuck :
      (cipher : Option K) (sn xs : List ℕ)
      → length xs < 18
      → IsStuck (decoder_of true cipher sn none) xs
  length-IsStuck none sn xs h n w = cc
  length-IsStuck (some key) sn xs h n w = ground arith

  pub payload-IsStuck :
      (cipher : Option K) (sn : List ℕ) (len : ℕ) (xs : List ℕ)
      → length xs < len + 16
      → IsStuck (decoder_of true cipher sn (some len)) xs
  payload-IsStuck none sn len xs h n w = cc
  payload-IsStuck (some key) sn len xs h n w = ground arith

  pub nonce-IsStuck :
      (h : Bool) (cipher : Option K) (sn : List ℕ) (expected : Option ℕ) (xs : List ℕ)
      → h ≡ false
      → length xs < 12
      → IsStuck (decoder_of h cipher sn expected) xs
  nonce-IsStuck true cipher sn expected xs fresh short n w = cc
  nonce-IsStuck false cipher sn expected xs fresh short n w = ground arith

  -- What an opened length or payload leads to, in terms of the variables.
  pub opened_length_ok :
      (cipher : Option K) (sn : List ℕ) (len : ℕ)
      → HasKey cipher
      → opened_length cipher sn (ok len) ≡ decoder_of true cipher sn (some len)
  opened_length_ok none sn len k = absurd k
  opened_length_ok (some key) sn len k = refl

  pub opened_payload_ok :
      (cipher : Option K) (sn plain : List ℕ)
      → HasKey cipher
      → opened_payload cipher sn (ok plain) ≡ decoder_of true cipher sn none
  opened_payload_ok none sn plain k = absurd k
  opened_payload_ok (some key) sn plain k = refl
