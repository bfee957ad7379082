-- ===== src/Nonce/Counter.antt =====
-- The nonce as a 64-bit counter that wraps, beside four bytes that never change.
use iwa_brook_quic.Base.{
  ℕ, zero, suc, ◌+◌, ◌*◌, ◌/◌, ◌%◌, ◌^◌, ◌<◌, ◌≡◌, ◌≢◌, refl, ap, bit_or, List, [], if◌then◌else◌,
  ◌==◌, ==_iff, Bool-cases, inl, inr, ◌∷◌, length, take, drop, arith,
}
use iwa_brook_quic.Base.Bits.{bit_and_255, disjoint_bit_or}
use iwa_brook_quic.Bytes.{IsBytes}
use iwa_brook_quic.Nonce.{next_nonce}

abbrev pub IsNonce : List ℕ → Type 0
IsNonce nonce = (length nonce ≡ 12) × IsBytes nonce

-- Little-endian value of a list of bytes.
abbrev pub le_value : List ℕ → ℕ
le_value [] = 0
le_value (b ∷ bs) = b + 256 * le_value bs

-- The counter that Brook keeps in the first eight bytes.
abbrev pub counter : List ℕ → ℕ
counter nonce = le_value (take 8 nonce)

le_word :
    (a b c d : ℕ)
    → a < 256
    → b < 256
    → c < 256
    → d < 256
    → bit_or (bit_or (bit_or a (b * 256)) (c * 65536)) (d * 16777216)
      ≡ a + b * 256 + c * 65536 + d * 16777216
le_word a b c d ha hb hc hd =
    let e = disjoint_bit_or 8 a b ha in
    let f = disjoint_bit_or 16 (a + b * 256) c (omega arith) in
    let g = disjoint_bit_or 24 (a + b * 256 + c * 65536) d (omega arith) in rw (e, f, g)

-- A nonce by its eight counter bytes and the four behind them.
data Split : List ℕ → Type 0 where
  split :
      (a b c d e f g h : ℕ) (rest : List ℕ)
      → IsBytes (a ∷ b ∷ c ∷ d ∷ e ∷ f ∷ g ∷ h ∷ rest)
      → length rest ≡ 4
      → Split (a ∷ b ∷ c ∷ d ∷ e ∷ f ∷ g ∷ h ∷ rest)

Split-nonce : (nonce : List ℕ) → IsNonce nonce → Split nonce
Split-nonce (a ∷ b ∷ c ∷ d ∷ e ∷ f ∷ g ∷ h ∷ rest) (len, bytes) =
    split a b c d e f g h rest bytes (omega arith)
Split-nonce _ n = absurd (omega (arith, n.0))

-- What `next_nonce` does to the bytes, in plain arithmetic.
abbrev low_next : ℕ → ℕ → ℕ → ℕ → ℕ
low_next a b c d = (a + b * 256 + c * 65536 + d * 16777216 + 1) % 4294967296

le_bytes : ℕ → List ℕ → List ℕ
le_bytes w rest = w % 256 ∷ w / 256 % 256 ∷ w / 65536 % 256 ∷ w / 16777216 % 256 ∷ rest

le_bytes-IsBytes : (w : ℕ) (rest : List ℕ) → IsBytes rest → IsBytes (le_bytes w rest)
unfolding le_bytes
le_bytes-IsBytes w rest h = (omega arith, (omega arith, (omega arith, (omega arith, h))))

next_nonce-bytes :
    (a b c d e f g h : ℕ) (rest : List ℕ)
    → IsBytes (a ∷ b ∷ c ∷ d ∷ e ∷ f ∷ g ∷ h ∷ rest)
    → next_nonce (a ∷ b ∷ c ∷ d ∷ e ∷ f ∷ g ∷ h ∷ rest) ≡ (
        if low_next a b c d == 0
        then le_bytes (low_next a b c d) (le_bytes (low_next e f g h) rest)
        else le_bytes (low_next a b c d) (e ∷ f ∷ g ∷ h ∷ rest))
unfolding next_nonce le_bytes
next_nonce-bytes a b c d e f g h rest p =
    let low = le_word a b c d (omega arith) (omega arith) (omega arith) (omega arith) in
    let high = le_word e f g h (omega arith) (omega arith) (omega arith) (omega arith) in
    rw (low, high) (simp bit_and_255)

abbrev Counted : List ℕ → Type 0
Counted nonce =
    (counter (next_nonce nonce) ≡ (counter nonce + 1) % 2 ^ 64)
    × (drop 8 (next_nonce nonce) ≡ drop 8 nonce)
    × IsNonce (next_nonce nonce)

Split-Counted : {nonce : List ℕ} → Split nonce → Counted nonce
unfolding le_bytes
Split-Counted (split a b c d e f g h rest p four) = elim (Bool-cases (low_next a b c d == 0)) [
  | inl wraps ↦
      let low : low_next a b c d ≡ 0 = (==_iff _ _).0 wraps in
      rw (next_nonce-bytes a b c d e f g h rest p, wraps)
        (
          omega (arith, low),
          refl,
          (
            omega (arith, four),
            le_bytes-IsBytes (low_next a b c d) (le_bytes (low_next e f g h) rest)
                (le_bytes-IsBytes (low_next e f g h) rest p.1.1.1.1.1.1.1.1),
          ),
        )
  | inr more ↦
      rw (next_nonce-bytes a b c d e f g h rest p, more)
        (
          ground arith,
          refl,
          (
            omega (arith, four),
            le_bytes-IsBytes (low_next a b c d) (e ∷ f ∷ g ∷ h ∷ rest) p.1.1.1.1,
          ),
        )
]

-- One call on a nonce of 12 bytes adds 1 to the little-endian counter in its first 8 bytes, modulo
-- 2^64, and keeps its last 4 bytes and its shape.
pub next_nonce-counter :
    (nonce : List ℕ)
    → IsNonce nonce
    → (counter (next_nonce nonce) ≡ (counter nonce + 1) % 2 ^ 64)
      × (drop 8 (next_nonce nonce) ≡ drop 8 nonce)
      × IsNonce (next_nonce nonce)
next_nonce-counter nonce h = Split-Counted (Split-nonce nonce h)

-- The nonce after k calls.
pub advance : ℕ → List ℕ → List ℕ
advance zero nonce = nonce
advance (suc k) nonce = next_nonce (advance k nonce)

pub advance-IsNonce : (k : ℕ) (nonce : List ℕ) → IsNonce nonce → IsNonce (advance k nonce)
unfolding advance
advance-IsNonce zero nonce h = h
advance-IsNonce (suc k) nonce h =
    (next_nonce-counter (advance k nonce) (advance-IsNonce k nonce h)).2

counter-lt : (nonce : List ℕ) → IsNonce nonce → counter nonce < 2 ^ 64
counter-lt nonce h = go (Split-nonce nonce h)
  where
    go : {n : List ℕ} → Split n → counter n < 2 ^ 64
    go (split a b c d e f g h' rest p four) = omega arith

-- From a nonce of 12 bytes, k calls add k to the counter, modulo 2^64.
pub counter-advance :
    (k : ℕ) (nonce : List ℕ)
    → IsNonce nonce
    → counter (advance k nonce) ≡ (counter nonce + k) % 2 ^ 64
unfolding advance
counter-advance zero nonce h = omega (arith, counter-lt nonce h)
counter-advance (suc k) nonce h = omega (
  arith,
  (next_nonce-counter (advance k nonce) (advance-IsNonce k nonce h)).0,
  counter-advance k nonce h,
)

-- From a nonce of 12 bytes, no two of 2^64 successive nonces agree.
pub advance-fresh :
    (i j : ℕ) (nonce : List ℕ)
    → IsNonce nonce
    → i < j
    → j < i + 2 ^ 64
    → advance i nonce ≢ advance j nonce
advance-fresh i j nonce h lt near e =
    omega (arith, ap counter e, counter-advance i nonce h, counter-advance j nonce h)
