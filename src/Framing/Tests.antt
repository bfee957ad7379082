-- ===== src/Framing/Tests.antt =====
-- Runs of brook-framing.js, and its theorems at an instance of the cipher.
use iwa_brook_quic.Base.{
  ℕ, ◌+◌, ◌-◌, ◌%◌, ◌≤◌, ◌≡◌, ◌∙◌, refl, ap, true, some, List, [], ◌∷◌, ◌++◌, length, take, drop,
  replicate, arith, length-append, length-replicate, take-append,
}
use iwa_brook_quic.Base.Int.{pos, negsuc, ◌+ℤ◌}
use iwa_brook_quic.Nonce.{next_nonce}
use iwa_brook_quic.Nonce.Counter.{IsNonce}
use iwa_brook_quic.Framing.{
  Aead, ok, err, too_long, seal_frame, open_length, open_payload, build_brook_header,
}
use iwa_brook_quic.Framing.Header.{build_brook_header-parity, be_value, parity}
use iwa_brook_quic.Framing.RoundTrip.{seal-open, seal-open_too_long}

header_run :
    build_brook_header 1700000001000 (1 ∷ 8 ∷ 8 ∷ 8 ∷ 8 ∷ 0 ∷ 53 ∷ []) true (pos 0)
    ≡ 101 ∷ 83 ∷ 241 ∷ 2 ∷ 1 ∷ 8 ∷ 8 ∷ 8 ∷ 8 ∷ 0 ∷ 53 ∷ []
unfolding build_brook_header
header_run = refl

-- A cipher that appends sixteen zeros.
abbrev pub plain_aead : Aead ℕ
plain_aead = record {
  encrypt = λ key nonce plain. some (plain ++ replicate 16 0);
  decrypt = λ key nonce sealed. some (take (length sealed - 16) sealed);
  seals = λ key nonce plain h. (
    plain ++ replicate 16 0,
    refl,
    length-append plain (replicate 16 0),
    ap some (
        ap (λ n. take n (plain ++ replicate 16 0))
          (omega (arith, length-append plain (replicate 16 0)))
        ∙ take-append plain (replicate 16 0)),
  );
}

abbrev pub zero_nonce : List ℕ
zero_nonce = replicate 12 0

pub zero_nonce-IsNonce : IsNonce zero_nonce
zero_nonce-IsNonce = (
  refl,
  (
    omega arith,
    (
      omega arith,
      (
        omega arith,
        (
          omega arith,
          (
            omega arith,
            (
              omega arith,
              (
                omega arith,
                (omega arith, (omega arith, (omega arith, (omega arith, (omega arith, tt))))),
              ),
            ),
          ),
        ),
      ),
    ),
  ),
)

abbrev text : List ℕ
text = 7 ∷ 8 ∷ 9 ∷ []

seal-open_example :
    (frame : List ℕ) × (seal_frame plain_aead 0 zero_nonce text
      ≡ (next_nonce (next_nonce zero_nonce), ok frame))
    × (length frame ≡ length text + 34)
    × (open_length plain_aead 0 zero_nonce (take 18 (frame ++ (1 ∷ [])))
        ≡ (next_nonce zero_nonce, ok (length text)))
    × (open_payload plain_aead 0
          (next_nonce zero_nonce)
          (take (length text + 16) (drop 18 (frame ++ (1 ∷ []))))
        ≡ (next_nonce (next_nonce zero_nonce), ok text))
seal-open_example = seal-open plain_aead 0 zero_nonce text (1 ∷ []) zero_nonce-IsNonce (omega arith)

abbrev long_payload : List ℕ
long_payload = replicate 65520 0

seal-open_too_long_example :
    (frame : List ℕ) × (seal_frame plain_aead 0 zero_nonce long_payload
      ≡ (next_nonce (next_nonce zero_nonce), ok frame))
    × (open_length plain_aead 0 zero_nonce (take 18 (frame ++ []))
        ≡ (next_nonce zero_nonce, err (too_long (length long_payload))))
seal-open_too_long_example =
    seal-open_too_long plain_aead 0 zero_nonce long_payload [] zero_nonce-IsNonce
      (omega (arith, length-replicate {A = ℕ} 65520 0))
      (omega (arith, length-replicate {A = ℕ} 65520 0))

build_brook_header-parity_example :
    (be_value 0 (take 4 (build_brook_header 1700000001000 (1 ∷ []) true (negsuc 1))) % 2
      ≡ parity true)
    × (1699999999 ≤ be_value 0 (take 4 (build_brook_header 1700000001000 (1 ∷ []) true (negsuc 1))))
    × (be_value 0 (take 4 (build_brook_header 1700000001000 (1 ∷ []) true (negsuc 1)))
        ≤ 1699999999 + 1)
    × (drop 4 (build_brook_header 1700000001000 (1 ∷ []) true (negsuc 1)) ≡ 1 ∷ [])
build_brook_header-parity_example =
    build_brook_header-parity 1700000001000 (1 ∷ []) true (negsuc 1) 1699999999
      (unfold ◌+ℤ◌ in refl) (omega arith)
