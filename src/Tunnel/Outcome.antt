-- ===== src/Tunnel/Outcome.antt =====
-- What the client is sent, as a function of what the server sent.
use iwa_brook_quic.Base.{
  ℕ, ◌+◌, ◌≤◌, ◌≡◌, ◌∙◌, refl, sym, ap, subst, false, Option, some, List, [], ◌∷◌, ◌++◌, length,
  take, drop, All, arith, append-nil, drop-drop, length-drop, length-append, take-append,
  drop-append,
}
use iwa_brook_quic.Framing.{Aead, Result, ok, seal_frame}
use iwa_brook_quic.Framing.RoundTrip.{seal-open}
use iwa_brook_quic.Nonce.{next_nonce}
use iwa_brook_quic.Nonce.Counter.{IsNonce, next_nonce-counter}
use iwa_brook_quic.Tunnel.State.{Tunnel, idle}
use iwa_brook_quic.Tunnel.Tracking.{Reads, queue_chunks}
use iwa_brook_quic.Tunnel.Decoder.{
  with_key, with_length, with_payload, output, IsStuck, awaiting_nonce, awaiting_length,
  awaiting_payload, consume, Runs, stop, go,
}
use iwa_brook_quic.Tunnel.Stream.{Inv, InPhase, view, unseen}

-- The receive loop has nothing left to do: it is at rest, on a live tunnel, with an empty queue.
pub record IsQuiet {K : Type 0} (t : Tunnel K) : Type 0 where
  pub at_rest : t.phase ≡ idle
  pub alive : t.is_terminated ≡ false
  pub drained : t.rx_queue ≡ []

-- What a peer puts on the wire: `sealFrame` on one payload after the other.
pub data Sealed {K : Type 0} (aead : Aead K) (key : K)
    : List ℕ → List (List ℕ) → List ℕ → Type 0 where
  no_frames : {nonce : List ℕ} → Sealed aead key nonce [] []
  one_more :
      {nonce nonce' payload frame wire : List ℕ} {payloads : List (List ℕ)}
      → seal_frame aead key nonce payload ≡ (nonce', ok frame)
      → Sealed aead key nonce' payloads wire
      → Sealed aead key nonce (payload ∷ payloads) (frame ++ wire)

abbrev pub joined_payloads : List (List ℕ) → List ℕ
joined_payloads [] = []
joined_payloads (p ∷ ps) = p ++ joined_payloads ps

module _ {K : Type 0} (aead : Aead K) (derive : List ℕ → Option K) where
  pub quiet_Reads :
      (seen : List ℕ) (t : Tunnel K)
      → Inv aead derive seen t
      → IsQuiet t
      → Reads aead derive seen t.written (view t) (unseen t) × IsStuck (view t) (unseen t)
  quiet_Reads seen t h quiet =
      let (r, k, stuck) =
        (subst (λ p. InPhase aead derive seen p t) quiet.at_rest h).1 quiet.alive in
      (
        rw append-nil at (
            subst (λ q. Reads aead derive seen t.written (view t) (unseen t ++ queue_chunks q))
              quiet.drained r),
        stuck,
      )

  Sealed-Runs :
      (key : K) {nonce wire : List ℕ} {payloads : List (List ℕ)}
      → Sealed aead key nonce payloads wire
      → IsNonce nonce
      → All (λ payload. length payload ≤ 65519) payloads
      → (nonce' : List ℕ) × Runs aead derive
          (awaiting_length key nonce)
          wire
          (joined_payloads payloads)
          (awaiting_length key nonce')
          []
  unfolding consume
  Sealed-Runs key {nonce} no_frames shape small = (nonce, stop)
  Sealed-Runs key {nonce}
        (one_more {nonce' = nonce'} {payload = payload} {frame = frame} {wire = wire}
          {payloads = payloads} sealing more)
        shape small =
      let (f, sealed, len, opens, pays) = seal-open aead key nonce payload wire shape small.0 in
      let both : ◌≡◌ {A = List ℕ × Result (List ℕ)} (nonce', ok frame)
          (next_nonce (next_nonce nonce), ok f) =
        sym sealing ∙ sealed in
      let same_nonce : nonce' ≡ next_nonce (next_nonce nonce) = ap (λ p. p.0) both in
      let same_frame : f ≡ frame = ap (λ p. output p.1) (sym both) in
      let shape' = (next_nonce-counter (next_nonce nonce) (next_nonce-counter nonce shape).2).2 in
      let (last, rest) = Sealed-Runs key more (subst IsNonce (sym same_nonce) shape') small.1 in
      let long : length (f ++ wire) ≡ length payload + 34 + length wire =
        length-append f wire ∙ omega (arith, len) in
      let left : drop (length payload + 16) (drop 18 (f ++ wire)) ≡ wire =
        drop-drop 18 (length payload + 16) (f ++ wire)
        ∙ subst (λ n. drop n (f ++ wire) ≡ wire) (len ∙ omega arith) (drop-append f wire) in
      (
        last,
        subst
            (λ fr.
              Runs aead derive (awaiting_length key nonce) (fr ++ wire)
                (payload ++ joined_payloads payloads) (awaiting_length key last) [])
            same_frame
            (go {d' = awaiting_payload key (next_nonce nonce) (length payload)} {o = []} 18 refl
              (omega (arith, long)) (ap (λ p. (with_length key p.0 p.1, [])) opens)
              (go {d' = awaiting_length key nonce'} {o = payload} (length payload + 16) refl
                (omega (arith, long, length-drop 18 (f ++ wire)))
                (ap (λ p. (with_payload key p.0 p.1, output p.1)) pays
                  ∙ ap (λ n. (awaiting_length key n, payload)) (sym same_nonce))
                (subst
                  (λ xs.
                    Runs aead derive (awaiting_length key nonce') xs (joined_payloads payloads)
                      (awaiting_length key last) [])
                  (sym left) rest))),
      )

  -- A nonce whose key can be derived and the frames behind it, as the decoder reads them.
  pub framed-Runs :
      (key : K) {nonce wire : List ℕ} {payloads : List (List ℕ)}
      → IsNonce nonce
      → derive nonce ≡ some key
      → Sealed aead key nonce payloads wire
      → All (λ payload. length payload ≤ 65519) payloads
      → (nonce' : List ℕ) × Runs aead derive awaiting_nonce
          (nonce ++ wire)
          (joined_payloads payloads)
          (awaiting_length key nonce')
          []
  unfolding consume
  framed-Runs key {nonce} {wire} {payloads} shape derives sealed small =
      let (last, framed) = Sealed-Runs key sealed shape small in
      let first : take 12 (nonce ++ wire) ≡ nonce =
        subst (λ n. take n (nonce ++ wire) ≡ nonce) shape.0 (take-append nonce wire) in
      let behind : drop 12 (nonce ++ wire) ≡ wire =
        subst (λ n. drop n (nonce ++ wire) ≡ wire) shape.0 (drop-append nonce wire) in
      (
        last,
        go {d' = awaiting_length key nonce} {o = []} 12 refl
            (omega (arith, length-append nonce wire, shape.0))
            (ap (λ xs. (with_key (derive xs) xs, [])) first
              ∙ ap (λ k. (with_key k nonce, [])) derives)
            (subst
              (λ xs.
                Runs aead derive (awaiting_length key nonce) xs (joined_payloads payloads)
                  (awaiting_length key last) [])
              (sym behind) framed),
      )
