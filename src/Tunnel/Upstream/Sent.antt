-- ===== src/Tunnel/Upstream/Sent.antt =====
-- What the server is sent, as a function of the request and of what the client gave to be read.
use iwa_brook_quic.Base.{
  ℕ, ◌≤◌, ◌≡◌, ◌∙◌, refl, sym, subst, Bool, true, false, ◌||◌, ◌⊎◌, inl, inr, Option, some, List,
  [], ◌∷◌, ◌++◌, length, arith, append-nil,
}
use iwa_brook_quic.Framing.{Aead}
use iwa_brook_quic.Nonce.Counter.{IsNonce}
use iwa_brook_quic.Tunnel.State.{Options}
use iwa_brook_quic.Tunnel.Decoder.{Decoder, awaiting_nonce, awaiting_length, Runs}
use iwa_brook_quic.Tunnel.Outcome.{Sealed, joined_payloads, framed-Runs}
use iwa_brook_quic.Tunnel.Upload.{Upload, slices}
use iwa_brook_quic.Tunnel.Upstream.{
  UpPhase, connecting, sending_nonce, awaiting_handshake, reading, sending_fin, awaiting_completion,
  ended, sending_header, sending_leftover, sending_chunk, RunEvent, new_run, run_from,
}
use iwa_brook_quic.Tunnel.Upstream.Frames.{Frames-Sealed}
use iwa_brook_quic.Tunnel.Upstream.Progress.{Partial, Whole, UpInv}
use iwa_brook_quic.Tunnel.Upstream.Fin.{run_all-RunInv}

-- `run` waits for something else than a send.
abbrev pub is_between_sends : UpPhase → Bool
is_between_sends awaiting_handshake = true
is_between_sends reading = true
is_between_sends sending_fin = true
is_between_sends awaiting_completion = true
is_between_sends _ = false

sent_all :
    (phase : UpPhase) (fin_sent : Bool)
    → fin_sent ≡ false
    → (is_between_sends phase || fin_sent) ≡ true
    → is_between_sends phase ≡ true
sent_all phase fin_sent e done = ground arith

module _ {K : Type 0} (aead : Aead K) (derive : List ℕ → Option K) (options : Options) (key : K)
    (nonce header leftover : List ℕ) where
  UpInv-Partial :
      (phase : UpPhase) (u : Upload) (consumed : List ℕ)
      → UpInv aead derive options key nonce header leftover phase u consumed
      → Partial aead derive options key nonce header leftover u consumed
  UpInv-Partial connecting u consumed h = inl h.0
  UpInv-Partial sending_nonce u consumed h = inl h.0
  UpInv-Partial (sending_header frame) u consumed h = inr (h.0, header ∷ slices leftover, h.1)
  UpInv-Partial (sending_leftover frame slice rest) u consumed h = inr (h.0, slice ∷ rest, h.1)
  UpInv-Partial (sending_chunk frame slice rest n) u consumed h = inr (h.0, slice ∷ rest, h.1)
  UpInv-Partial awaiting_handshake u consumed h = inr (u.client_nonce, [], h)
  UpInv-Partial reading u consumed h = inr (u.client_nonce, [], h)
  UpInv-Partial sending_fin u consumed h = inr (u.client_nonce, [], h)
  UpInv-Partial awaiting_completion u consumed h = inr (u.client_nonce, [], h)
  UpInv-Partial ended u consumed h = h

  UpInv-Whole :
      (phase : UpPhase) (u : Upload) (consumed : List ℕ)
      → is_between_sends phase ≡ true
      → UpInv aead derive options key nonce header leftover phase u consumed
      → Whole aead derive options key nonce header leftover u consumed
  UpInv-Whole connecting u consumed e h = absurd (cc)
  UpInv-Whole sending_nonce u consumed e h = absurd (cc)
  UpInv-Whole (sending_header frame) u consumed e h = absurd (cc)
  UpInv-Whole (sending_leftover frame slice rest) u consumed e h = absurd (cc)
  UpInv-Whole (sending_chunk frame slice rest n) u consumed e h = absurd (cc)
  UpInv-Whole awaiting_handshake u consumed e h = h
  UpInv-Whole reading u consumed e h = h
  UpInv-Whole sending_fin u consumed e h = h
  UpInv-Whole awaiting_completion u consumed e h = h
  UpInv-Whole ended u consumed e h = absurd (cc)

  Whole-Runs :
      (u : Upload) (consumed : List ℕ)
      → IsNonce nonce
      → derive nonce ≡ some key
      → Whole aead derive options key nonce header leftover u consumed
      → (d : Decoder K) × Runs aead derive awaiting_nonce u.sent
          (header ++ (leftover ++ consumed))
          d
          []
  Whole-Runs u consumed shape derives (parts, wire, frames, sent, carried, small, rest) =
      let (last, r) =
        framed-Runs aead derive key shape derives (Frames-Sealed aead key frames) small in
      (
        awaiting_length key last,
        subst
            (λ s.
              Runs aead derive awaiting_nonce s (header ++ (leftover ++ consumed))
                (awaiting_length key last) [])
            (sym sent)
            (subst
              (λ o. Runs aead derive awaiting_nonce (nonce ++ wire) o (awaiting_length key last) [])
              (sym (append-nil (joined_payloads parts)) ∙ carried) r),
      )

  -- For a header of at most 65519 bytes, whatever happens in whatever order: either nothing was sent,
  -- or the client's nonce was, and behind it sealed frames, in order from that nonce, whose payloads
  -- together are a beginning of the header, the leftover bytes and what was read of the client.
  pub run_from-Sealed :
      (events : List RunEvent) (metrics upload_pending : ℕ)
      → length header ≤ 65519
      → let r =
          run_from aead derive options key nonce header leftover events metrics upload_pending in
        (r.up.sent ≡ [])
        ⊎ ((parts : List (List ℕ)) × (wire : List ℕ) × (more : List ℕ) × Sealed aead key nonce parts
              wire
            × (r.up.sent ≡ nonce ++ wire)
            × (joined_payloads parts ++ more ≡ header ++ (leftover ++ r.consumed)))
  run_from-Sealed events metrics upload_pending small =
      let r =
        run_from aead derive options key nonce header leftover events metrics upload_pending in
      let h =
        run_all-RunInv aead derive options key nonce header leftover events
          (new_run nonce metrics upload_pending) small ((refl, refl, refl), inl refl) in
      elim (UpInv-Partial r.up_phase r.up r.consumed h.0) [
        | inl e ↦ inl e
        | inr (current, rest, (parts, wire, frames, sent, carried, small_parts, small_rest)) ↦
            inr (parts, wire, joined_payloads rest, Frames-Sealed aead key frames, sent, carried)
      ]

  -- For a header of at most 65519 bytes and a nonce of 12 bytes whose key the receiver derives,
  -- whatever happened: where `run` waits for the handshake, for a read of the client, for the FIN or
  -- for the end, and also once the FIN was sent, a decoder run on what was sent has taken all of it
  -- and has written exactly the header, the leftover bytes and what was read of the client.
  pub run_from-Runs :
      (events : List RunEvent) (metrics upload_pending : ℕ)
      → length header ≤ 65519
      → IsNonce nonce
      → derive nonce ≡ some key
      → (is_between_sends
            (run_from aead derive options key nonce header leftover events metrics
              upload_pending).up_phase
          || (run_from aead derive options key nonce header leftover events metrics
              upload_pending).fin_sent)
        ≡ true
      → let r =
          run_from aead derive options key nonce header leftover events metrics upload_pending in
        (d : Decoder K) × Runs aead derive awaiting_nonce r.up.sent
          (header ++ (leftover ++ r.consumed))
          d
          []
  run_from-Runs events metrics upload_pending small shape derives done =
      let r =
        run_from aead derive options key nonce header leftover events metrics upload_pending in
      let h =
        run_all-RunInv aead derive options key nonce header leftover events
          (new_run nonce metrics upload_pending) small ((refl, refl, refl), inl refl) in
      elim h.1 [
        | inl open_still ↦ Whole-Runs r.up r.consumed shape derives (
            UpInv-Whole r.up_phase r.up r.consumed (sent_all r.up_phase r.fin_sent open_still done)
              h.0)
        | inr w ↦ Whole-Runs r.up r.consumed shape derives w.1
      ]
