-- ===== src/Nonce/Tests.antt =====
-- Runs of `nextNonce`, and its theorems on concrete nonces.
use iwa_brook_quic.Base.{ℕ, ◌+◌, ◌%◌, ◌^◌, ◌≡◌, ◌≢◌, refl, List, [], ◌∷◌, drop, arith}
use iwa_brook_quic.Nonce.{next_nonce, load_le32, store_le32}
use iwa_brook_quic.Nonce.Counter.{IsNonce, counter, next_nonce-counter, advance, advance-fresh}

-- The low word is at its end, and carries.
abbrev carrying : List ℕ
carrying = 255 ∷ 255 ∷ 255 ∷ 255 ∷ 7 ∷ 0 ∷ 0 ∷ 0 ∷ 9 ∷ 9 ∷ 9 ∷ 9 ∷ []

carrying-IsNonce : IsNonce carrying
carrying-IsNonce = (
  refl,
  (
    omega arith,
    (
      omega arith,
      (
        omega arith,
        (
          omega arith,
          (
            omega arith,
            (
              omega arith,
              (
                omega arith,
                (omega arith, (omega arith, (omega arith, (omega arith, (omega arith, tt))))),
              ),
            ),
          ),
        ),
      ),
    ),
  ),
)

carry_run : next_nonce carrying ≡ 0 ∷ 0 ∷ 0 ∷ 0 ∷ 8 ∷ 0 ∷ 0 ∷ 0 ∷ 9 ∷ 9 ∷ 9 ∷ 9 ∷ []
unfolding next_nonce load_le32 store_le32
carry_run = refl

next_nonce-counter_example :
    (counter (next_nonce carrying) ≡ (counter carrying + 1) % 2 ^ 64)
    × (drop 8 (next_nonce carrying) ≡ drop 8 carrying)
    × IsNonce (next_nonce carrying)
next_nonce-counter_example = next_nonce-counter carrying carrying-IsNonce

advance-fresh_example : advance 2 carrying ≢ advance 7 carrying
advance-fresh_example = advance-fresh 2 7 carrying carrying-IsNonce (omega arith) (omega arith)
