-- ===== src/Tunnel/Upstream/Progress.antt =====
-- What `BrookTunnel.run` has sent, at each of its awaits.
use iwa_brook_quic.Base.{
  ℕ, ◌≤◌, ◌≡◌, ◌∙◌, refl, sym, ap, subst, either_way, true, ◌||◌, ◌⊎◌, inr, Option, List, [], ◌∷◌,
  ◌++◌, length, All, All-append, arith, append-nil, append_assoc,
}
use iwa_brook_quic.Framing.{Aead, Result, ok, err, seal_frame}
use iwa_brook_quic.Tunnel.State.{Tunnel, Options, Reason}
use iwa_brook_quic.Tunnel.Cleanup.{cleanup, ended_by}
use iwa_brook_quic.Tunnel.Upload.{Upload, slices}
use iwa_brook_quic.Tunnel.Outcome.{joined_payloads}
use iwa_brook_quic.Tunnel.Upstream.{
  UpPhase, connecting, sending_nonce, ended, sending_header, sending_leftover, sending_chunk, Run,
  finish_run, leave_loop, next_client_read, with_frame, send_leftover, send_chunks,
}
use iwa_brook_quic.Tunnel.Upstream.Frames.{Frames, Frames-snoc, joined_payloads-append}

abbrev pub IsSmall : List ℕ → Type 0
IsSmall part = length part ≤ 65519

pub cleanup-terminated :
    {K : Type 0} (reason : Reason) (t : Tunnel K) → (cleanup reason t).is_terminated ≡ true
unfolding cleanup
cleanup-terminated {K} reason t =
    either_way (λ (x : Tunnel K). x.is_terminated ≡ true) t.is_terminated t (ended_by reason t)
      (λ e. e) (λ _. refl)

module _ {K : Type 0} (aead : Aead K) (derive : List ℕ → Option K) (options : Options) (key : K)
    (nonce header leftover : List ℕ) where
  -- The nonce and some frames were sent; together with the slices to come they carry the header, the
  -- leftover bytes and the bytes read so far. `current` is the nonce behind those frames.
  abbrev pub Progress : List ℕ → List (List ℕ) → List ℕ → List ℕ → Type 0
  Progress current rest sent consumed =
      (parts : List (List ℕ)) × (wire : List ℕ) × Frames aead key nonce parts wire current
      × (sent ≡ nonce ++ wire)
      × (joined_payloads parts ++ joined_payloads rest ≡ header ++ (leftover ++ consumed))
      × All IsSmall parts
      × All IsSmall rest

  -- A frame is in hand: it was sealed behind those sent, from the first of the slices to come.
  abbrev pub InHand : List ℕ → List ℕ → List (List ℕ) → Upload → List ℕ → Type 0
  InHand frame slice rest u consumed =
      (current : List ℕ) × Progress current (slice ∷ rest) u.sent consumed
      × (seal_frame aead key current slice ≡ (u.client_nonce, ok frame))

  abbrev pub Fresh : Upload → List ℕ → Type 0
  Fresh u consumed = (u.sent ≡ []) × (u.client_nonce ≡ nonce) × (consumed ≡ [])

  abbrev pub Whole : Upload → List ℕ → Type 0
  Whole u consumed = Progress u.client_nonce [] u.sent consumed

  -- At the end, a part may be all that was sent.
  abbrev pub Partial : Upload → List ℕ → Type 0
  Partial u consumed =
      (u.sent ≡ [])
      ⊎ ((current : List ℕ) × (rest : List (List ℕ)) × Progress current rest u.sent consumed)

  abbrev pub UpInv : UpPhase → Upload → List ℕ → Type 0
  UpInv connecting u consumed = Fresh u consumed
  UpInv sending_nonce u consumed = Fresh u consumed
  UpInv (sending_header frame) u consumed = InHand frame header (slices leftover) u consumed
  UpInv (sending_leftover frame slice rest) u consumed = InHand frame slice rest u consumed
  UpInv (sending_chunk frame slice rest remaining) u consumed = InHand frame slice rest u consumed
  UpInv ended u consumed = Partial u consumed
  UpInv _ u consumed = Whole u consumed

  abbrev pub Sends : Run K → Type 0
  Sends r = UpInv r.up_phase r.up r.consumed

  -- The frame in hand is sent.
  pub sent-Progress :
      (frame slice : List ℕ) (rest : List (List ℕ)) (u : Upload) (consumed : List ℕ)
      → InHand frame slice rest u consumed
      → Progress u.client_nonce rest (u.sent ++ frame) consumed
  sent-Progress frame slice rest u consumed
        (current, (parts, wire, frames, sent, carried, small, small'), sealing) =
      (
        parts ++ (slice ∷ []),
        wire ++ frame,
        Frames-snoc aead key slice frames sealing,
        ap (λ s. s ++ frame) sent ∙ append_assoc nonce wire frame,
        ap (λ s. s ++ joined_payloads rest)
              (joined_payloads-append parts (slice ∷ [])
                ∙ ap (◌++◌ (joined_payloads parts)) (append-nil slice))
            ∙ append_assoc (joined_payloads parts) slice (joined_payloads rest)
            ∙ carried,
        All-append IsSmall parts (slice ∷ []) small (small'.0, tt),
        small'.1,
      )

  pub with_frame-Sends :
      (current slice : List ℕ) (rest : List (List ℕ)) (phase : List ℕ → UpPhase) (r : Run K)
      (sealed : List ℕ × Result (List ℕ))
      → ((frame : List ℕ) (u : Upload)
          → InHand frame slice rest u r.consumed
          → UpInv (phase frame) u r.consumed)
      → Progress current (slice ∷ rest) r.up.sent r.consumed
      → seal_frame aead key current slice ≡ sealed
      → Sends (with_frame aead derive options key nonce header leftover r sealed phase)
  unfolding finish_run
  with_frame-Sends current slice rest phase r (nonce', err e) at p sealing =
      inr (current, slice ∷ rest, p)
  with_frame-Sends current slice rest phase r (nonce', ok frame) at p sealing =
      at frame (record r.up { client_nonce = nonce' }) (current, p, sealing)

  pub finish_run-Sends : (r : Run K) → Partial r.up r.consumed → Sends (finish_run r)
  unfolding finish_run
  finish_run-Sends r p = p

  pub leave_loop-Sends : (r : Run K) → Whole r.up r.consumed → Sends (leave_loop r)
  unfolding leave_loop
  leave_loop-Sends r w =
      either_way Sends (r.rx.is_terminated || r.rx.server_fin_received) (finish_run r) _
        (λ _. finish_run-Sends r (inr (r.up.client_nonce, [], w))) (λ _. w)

  -- A tunnel that has ended leaves the loop for good.
  pub leave_cut-Sends :
      (r : Run K) → r.rx.is_terminated ≡ true → Partial r.up r.consumed → Sends (leave_loop r)
  unfolding leave_loop
  leave_cut-Sends r over p =
      either_way Sends (r.rx.is_terminated || r.rx.server_fin_received) (finish_run r) _
        (λ _. finish_run-Sends r p) (λ alive. absurd (ground arith))

  pub next_client_read-Sends : (r : Run K) → Whole r.up r.consumed → Sends (next_client_read r)
  unfolding next_client_read
  next_client_read-Sends r w =
      either_way Sends r.rx.is_terminated (leave_loop r) _ (λ _. leave_loop-Sends r w) (λ _. w)

  pub send_leftover-Sends :
      (rest : List (List ℕ)) (r : Run K)
      → Progress r.up.client_nonce rest r.up.sent r.consumed
      → Sends (send_leftover aead derive options key nonce header leftover rest r)
  unfolding send_leftover
  send_leftover-Sends [] r p = p
  send_leftover-Sends (slice ∷ rest) r p =
      with_frame-Sends r.up.client_nonce slice rest (λ frame. sending_leftover frame slice rest) r _
        (λ frame u h. h) p refl

  pub send_chunks-Sends :
      (rest : List (List ℕ)) (remaining : ℕ) (r : Run K)
      → Progress r.up.client_nonce rest r.up.sent r.consumed
      → Sends (send_chunks aead derive options key nonce header leftover rest remaining r)
  unfolding send_chunks
  send_chunks-Sends [] remaining r p = next_client_read-Sends r p
  send_chunks-Sends (slice ∷ rest) remaining r p =
      with_frame-Sends r.up.client_nonce slice rest
        (λ frame. sending_chunk frame slice rest remaining) r _ (λ frame u h. h) p refl

  pub kept-Sends :
      {phase : UpPhase} (r : Run K) → r.up_phase ≡ phase → UpInv phase r.up r.consumed → Sends r
  kept-Sends r e h = subst (λ p. UpInv p r.up r.consumed) (sym e) h
