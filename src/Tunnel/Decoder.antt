-- ===== src/Tunnel/Decoder.antt =====
-- The server's byte stream, decoded with no regard to how it arrives: a nonce, then frames.
use iwa_brook_quic.Base.{
  ℕ, ◌+◌, ◌≤◌, ◌<◌, ◌≡◌, ◌∙◌, refl, sym, ap, subst, Option, none, some, List, [], ◌++◌, length,
  take, drop, arith, append-nil, append_assoc, length-append, take-append_le, drop-append_le,
}
use iwa_brook_quic.Framing.{Aead, Result, ok, err, open_length, open_payload}

pub data Decoder (K : Type 0) : Type 0 where
  awaiting_nonce : Decoder K
  awaiting_length : K → List ℕ → Decoder K
  awaiting_payload : K → List ℕ → ℕ → Decoder K
  broken : Decoder K

module _ {K : Type 0} where
  abbrev pub with_key : Option K → List ℕ → Decoder K
  with_key none sn = broken
  with_key (some key) sn = awaiting_length key sn

  abbrev pub with_length : K → List ℕ → Result ℕ → Decoder K
  with_length key sn (err e) = broken
  with_length key sn (ok len) = awaiting_payload key sn len

  abbrev pub with_payload : K → List ℕ → Result (List ℕ) → Decoder K
  with_payload key sn (err e) = broken
  with_payload key sn (ok plain) = awaiting_length key sn

abbrev pub output : Result (List ℕ) → List ℕ
output (err e) = []
output (ok plain) = plain

-- How many bytes the decoder waits for; a broken one wants none.
abbrev pub wanted : {K : Type 0} → Decoder K → Option ℕ
wanted awaiting_nonce = some 12
wanted (awaiting_length key sn) = some 18
wanted (awaiting_payload key sn len) = some (len + 16)
wanted broken = none

-- The decoder has too few bytes to go on.
abbrev pub IsStuck : {K : Type 0} → Decoder K → List ℕ → Type 0
IsStuck d xs = (n : ℕ) → wanted d ≡ some n → length xs < n

module _ {K : Type 0} (aead : Aead K) (derive : List ℕ → Option K) where
  -- What the decoder makes of exactly the bytes that it wants: its next state and its output.
  unfoldable pub consume : Decoder K → List ℕ → Decoder K × List ℕ
  consume awaiting_nonce bytes = (with_key (derive bytes) bytes, [])
  consume (awaiting_length key sn) bytes =
      let (sn', len) = open_length aead key sn bytes in (with_length key sn' len, [])
  consume (awaiting_payload key sn len) bytes =
      let (sn', plain) = open_payload aead key sn bytes in
      (with_payload key sn' plain, output plain)
  consume broken bytes = (broken, [])

  -- One decoder step after the other, until it stops.
  pub data Runs : Decoder K → List ℕ → List ℕ → Decoder K → List ℕ → Type 0 where
    stop : {d : Decoder K} {xs : List ℕ} → Runs d xs [] d xs
    go :
        {d d' e : Decoder K} {xs o out rest : List ℕ} (n : ℕ)
        → wanted d ≡ some n
        → n ≤ length xs
        → consume d (take n xs) ≡ (d', o)
        → Runs d' (drop n xs) out e rest
        → Runs d xs (o ++ out) e rest

  -- Steps done stay done when more bytes follow.
  pub Runs-extend :
      {d e : Decoder K} {xs out rest : List ℕ} (more : List ℕ)
      → Runs d xs out e rest
      → Runs d (xs ++ more) out e (rest ++ more)
  Runs-extend more stop = stop
  Runs-extend {xs = xs} more (go {d' = d'} {o = o} n w fits c r) =
      go {d' = d'} {o = o} n w (omega (arith, length-append xs more))
        (rw (take-append_le n xs more fits) c)
        (rw (drop-append_le n xs more fits) (Runs-extend more r))

  pub Runs-append :
      {d e f : Decoder K} {xs out rest out' rest' : List ℕ}
      → Runs d xs out e rest
      → Runs e rest out' f rest'
      → Runs d xs (out ++ out') f rest'
  Runs-append stop s = s
  Runs-append {out' = out'} (go {o = o} {out = out} n w fits c r) s =
      rw (append_assoc o out out') (go n w fits c (Runs-append r s))

  pub Runs-step :
      {d d' : Decoder K} {xs o : List ℕ} (n : ℕ)
      → wanted d ≡ some n
      → n ≤ length xs
      → consume d (take n xs) ≡ (d', o)
      → Runs d xs o d' (drop n xs)
  Runs-step {xs = xs} {o = o} n w fits c = rw (append-nil o) at (go n w fits c stop)

  -- Two runs over the same bytes: the longer one goes on where the other stops.
  pub Runs-rest :
      {d e f : Decoder K} {xs out rest out' rest' : List ℕ}
      → Runs d xs out e rest
      → Runs d xs out' f rest'
      → IsStuck f rest'
      → (more : List ℕ) × (out' ≡ out ++ more) × Runs e rest more f rest'
  Runs-rest {out' = out'} stop s stuck = (out', refl, s)
  Runs-rest (go n w fits c r) stop stuck = absurd (omega (arith, stuck n w))
  Runs-rest {d} {e} {f} {xs = xs} {rest' = rest'} (go {d' = d'} {o = o} {out = out} n w fits c r)
        (go {d' = d''} {o = o'} {out = out''} m w' fits' c' s) stuck =
      let same : m ≡ n = cc in
      let pair : ◌≡◌ {A = Decoder K × List ℕ} (d'', o') (d', o) =
        sym c' ∙ ap (λ k. consume d (take k xs)) same ∙ c in
      let first : Runs d' (drop m xs) out'' f rest' =
        subst (λ z. Runs z (drop m xs) out'' f rest') (ap (λ p. p.0) pair) s in
      let (more, eq, left) =
        Runs-rest r (subst (λ k. Runs d' (drop k xs) out'' f rest') same first) stuck in
      (more, ap (λ p. p.1 ++ out'') pair ∙ ap (◌++◌ o) eq ∙ sym (append_assoc o out more), left)

  stuck_Runs :
      {d e : Decoder K} {xs out rest : List ℕ} → IsStuck d xs → Runs d xs out e rest → out ≡ []
  stuck_Runs stuck stop = refl
  stuck_Runs stuck (go n w fits c r) = absurd (omega (arith, stuck n w))

  -- Runs that both end for want of bytes have the same output.
  pub Runs-unique :
      {d e f : Decoder K} {xs out rest out' rest' : List ℕ}
      → Runs d xs out e rest
      → IsStuck e rest
      → Runs d xs out' f rest'
      → IsStuck f rest'
      → out' ≡ out
  Runs-unique {out = out} r stuck s stuck' =
      let (more, eq, left) = Runs-rest r s stuck' in
      eq ∙ ap (◌++◌ out) (stuck_Runs stuck left) ∙ append-nil out
