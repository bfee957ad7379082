-- ===== src/Tunnel/Upstream/Steps.antt =====
-- Each turn of `BrookTunnel.run` keeps to what it may have sent.
use iwa_brook_quic.Base.{
  ℕ, ◌≤◌, ◌≡◌, ◌∙◌, refl, sym, ap, subst, either_way, if◌then◌else◌, Bool, true, false, not, ◌&&◌,
  inl, inr, Option, List, [], ◌∷◌, ◌++◌, length, append-nil, append_assoc,
}
use iwa_brook_quic.Framing.{Aead}
use iwa_brook_quic.Tunnel.State.{Options, upstream_write_failed, client_abort}
use iwa_brook_quic.Tunnel.Cleanup.{cleanup}
use iwa_brook_quic.Tunnel.Upload.{slices, slices-joined}
use iwa_brook_quic.Tunnel.Outcome.{joined_payloads}
use iwa_brook_quic.Tunnel.Upstream.{
  UpPhase, connecting, sending_nonce, awaiting_handshake, reading, sending_fin, awaiting_completion,
  ended, sending_header, sending_leftover, sending_chunk, ClientRead, read_value, read_done,
  read_throws, RunEvent, receives, resumes, reads, Run, is_settled, finish_run, next_client_read,
  frame_sent, resume_up, after_read, client_read, run_step,
}
use iwa_brook_quic.Tunnel.Upstream.Frames.{Frames, nothing}
use iwa_brook_quic.Tunnel.Upstream.Progress.{
  cleanup-terminated, InHand, Fresh, Whole, UpInv, Sends, sent-Progress, with_frame-Sends,
  finish_run-Sends, leave_loop-Sends, leave_cut-Sends, next_client_read-Sends, send_leftover-Sends,
  send_chunks-Sends, kept-Sends,
}

module _ {K : Type 0} (aead : Aead K) (derive : List ℕ → Option K) (options : Options) (key : K)
    (nonce header leftover : List ℕ) where
  awaited-Sends :
      (waits done : Bool) (r : Run K)
      → r.up_phase ≡ awaiting_handshake
      → Whole aead derive options key nonce header leftover r.up r.consumed
      → Sends aead derive options key nonce header leftover
          (if waits then r else if done then next_client_read r else finish_run r)
  awaited-Sends true done r e w = kept-Sends aead derive options key nonce header leftover r e w
  awaited-Sends false true r e w =
      next_client_read-Sends aead derive options key nonce header leftover r w
  awaited-Sends false false r e w =
      finish_run-Sends aead derive options key nonce header leftover r
        (inr (r.up.client_nonce, [], w))

  completed-Sends :
      (completed : Bool) (r : Run K)
      → r.up_phase ≡ awaiting_completion
      → Whole aead derive options key nonce header leftover r.up r.consumed
      → Sends aead derive options key nonce header leftover (if completed then finish_run r else r)
  completed-Sends true r e w =
      finish_run-Sends aead derive options key nonce header leftover r
        (inr (r.up.client_nonce, [], w))
  completed-Sends false r e w = kept-Sends aead derive options key nonce header leftover r e w

  header_sent-Sends :
      (frame : List ℕ) (r : Run K)
      → InHand aead derive options key nonce header leftover frame header
          (slices leftover)
          r.up
          r.consumed
      → Sends aead derive options key nonce header leftover
          (resume_up aead derive options key nonce header leftover true (sending_header frame) r)
  unfolding resume_up
  header_sent-Sends frame r h =
      send_leftover-Sends aead derive options key nonce header leftover (slices leftover) _ (
        sent-Progress aead derive options key nonce header leftover frame header (slices leftover)
          r.up r.consumed h)

  nonce_sent-Sends :
      (r : Run K)
      → length header ≤ 65519
      → Fresh aead derive options key nonce header leftover r.up r.consumed
      → Sends aead derive options key nonce header leftover
          (resume_up aead derive options key nonce header leftover true sending_nonce r)
  unfolding resume_up
  nonce_sent-Sends r small (sent, same, nothing_read) =
      let (joined, smalls) = slices-joined leftover in
      with_frame-Sends aead derive options key nonce header leftover r.up.client_nonce header
        (slices leftover) sending_header (record r { up = frame_sent nonce r.up }) _
        (λ frame u h. h)
        (
          [],
          [],
          subst (λ n. Frames aead key nonce [] [] n) (sym same) nothing,
          ap (λ s. s ++ nonce) sent ∙ sym (append-nil nonce),
          ap (◌++◌ header)
              (joined ∙ sym (append-nil leftover) ∙ ap (◌++◌ leftover) (sym nothing_read)),
          tt,
          (small, smalls),
        )
        refl

  resume_up-Sends :
      (is_done : Bool) (phase : UpPhase) (r : Run K)
      → r.up_phase ≡ phase
      → length header ≤ 65519
      → UpInv aead derive options key nonce header leftover phase r.up r.consumed
      → Sends aead derive options key nonce header leftover
          (resume_up aead derive options key nonce header leftover is_done phase r)
  unfolding resume_up finish_run
  resume_up-Sends true connecting r e small h = h
  resume_up-Sends false connecting r e small h = inl h.0
  resume_up-Sends true sending_nonce r e small h = nonce_sent-Sends r small h
  resume_up-Sends false sending_nonce r e small h = inl h.0
  resume_up-Sends true (sending_header frame) r e small h = header_sent-Sends frame r h
  resume_up-Sends false (sending_header frame) r e small h =
      inr (h.0, header ∷ slices leftover, h.1)
  resume_up-Sends true (sending_leftover frame slice rest) r e small h =
      send_leftover-Sends aead derive options key nonce header leftover rest _ (
        sent-Progress aead derive options key nonce header leftover frame slice rest r.up r.consumed
          h)
  resume_up-Sends false (sending_leftover frame slice rest) r e small h =
      inr (h.0, slice ∷ rest, h.1)
  resume_up-Sends true (sending_chunk frame slice rest remaining) r e small h =
      send_chunks-Sends aead derive options key nonce header leftover rest _ _ (
        sent-Progress aead derive options key nonce header leftover frame slice rest r.up r.consumed
          h)
  resume_up-Sends false (sending_chunk frame slice rest remaining) r e small h =
      leave_cut-Sends aead derive options key nonce header leftover _
        (cleanup-terminated upstream_write_failed r.rx) (inr (h.0, slice ∷ rest, h.1))
  resume_up-Sends true awaiting_handshake r e small h =
      awaited-Sends (not (is_settled r.rx.handshake))
        (r.rx.server_handshake_done && not r.rx.is_terminated) r e h
  resume_up-Sends false awaiting_handshake r e small h =
      awaited-Sends (not (is_settled r.rx.handshake))
        (r.rx.server_handshake_done && not r.rx.is_terminated) r e h
  resume_up-Sends true sending_fin r e small h =
      leave_loop-Sends aead derive options key nonce header leftover _ h
  resume_up-Sends false sending_fin r e small h =
      leave_loop-Sends aead derive options key nonce header leftover _ h
  resume_up-Sends true awaiting_completion r e small h = completed-Sends r.rx.is_completed r e h
  resume_up-Sends false awaiting_completion r e small h = completed-Sends r.rx.is_completed r e h
  resume_up-Sends true reading r e small h =
      kept-Sends aead derive options key nonce header leftover r e h
  resume_up-Sends false reading r e small h =
      kept-Sends aead derive options key nonce header leftover r e h
  resume_up-Sends true ended r e small h =
      kept-Sends aead derive options key nonce header leftover r e h
  resume_up-Sends false ended r e small h =
      kept-Sends aead derive options key nonce header leftover r e h

  after_read-Sends :
      (read : ClientRead) (r : Run K)
      → Whole aead derive options key nonce header leftover r.up r.consumed
      → Sends aead derive options key nonce header leftover
          (after_read aead derive options key nonce header leftover read r)
  unfolding after_read
  after_read-Sends (read_value []) r w =
      next_client_read-Sends aead derive options key nonce header leftover r w
  after_read-Sends (read_value (b ∷ bs)) r (parts, wire, frames, sent, carried, small, small') =
      let value = b ∷ bs in
      let (joined, smalls) = slices-joined value in
      let grown : joined_payloads parts ++ joined_payloads (slices value)
          ≡ header ++ (leftover ++ (r.consumed ++ value)) =
        ap (◌++◌ (joined_payloads parts)) joined
        ∙ ap (λ xs. xs ++ value) (sym (append-nil (joined_payloads parts)) ∙ carried)
        ∙ append_assoc header (leftover ++ r.consumed) value
        ∙ ap (◌++◌ header) (append_assoc leftover r.consumed value) in
      send_chunks-Sends aead derive options key nonce header leftover (slices value) (length value)
        _ (parts, wire, frames, sent, grown, small, smalls)
  after_read-Sends read_done r w =
      let t = record r.rx { client_read_closed = true } in
      either_way (Sends aead derive options key nonce header leftover) r.rx.server_handshake_done
        (record r { rx = t; up_phase = sending_fin }) _ (λ _. w)
        (λ _.
          leave_loop-Sends aead derive options key nonce header leftover
            (record r { rx = cleanup client_abort t }) w)
  after_read-Sends read_throws r w =
      leave_loop-Sends aead derive options key nonce header leftover
        (record r { rx = cleanup client_abort r.rx }) w

  client_read-Sends :
      (read : ClientRead) (phase : UpPhase) (r : Run K)
      → r.up_phase ≡ phase
      → UpInv aead derive options key nonce header leftover phase r.up r.consumed
      → Sends aead derive options key nonce header leftover
          (client_read aead derive options key nonce header leftover read phase r)
  unfolding client_read
  client_read-Sends read reading r e h = after_read-Sends read r h
  client_read-Sends read connecting r e h =
      kept-Sends aead derive options key nonce header leftover r e h
  client_read-Sends read sending_nonce r e h =
      kept-Sends aead derive options key nonce header leftover r e h
  client_read-Sends read awaiting_handshake r e h =
      kept-Sends aead derive options key nonce header leftover r e h
  client_read-Sends read sending_fin r e h =
      kept-Sends aead derive options key nonce header leftover r e h
  client_read-Sends read awaiting_completion r e h =
      kept-Sends aead derive options key nonce header leftover r e h
  client_read-Sends read ended r e h =
      kept-Sends aead derive options key nonce header leftover r e h
  client_read-Sends read (sending_header frame) r e h =
      kept-Sends aead derive options key nonce header leftover r e h
  client_read-Sends read (sending_leftover frame slice rest) r e h =
      kept-Sends aead derive options key nonce header leftover r e h
  client_read-Sends read (sending_chunk frame slice rest remaining) r e h =
      kept-Sends aead derive options key nonce header leftover r e h

  pub run_step-Sends :
      (event : RunEvent) (r : Run K)
      → length header ≤ 65519
      → Sends aead derive options key nonce header leftover r
      → Sends aead derive options key nonce header leftover
          (run_step aead derive options key nonce header leftover event r)
  unfolding run_step
  run_step-Sends (receives event) r small h = h
  run_step-Sends (resumes is_done) r small h = resume_up-Sends is_done r.up_phase r refl small h
  run_step-Sends (reads read) r small h = client_read-Sends read r.up_phase r refl h
