-- ===== src/Tunnel/Upstream/Fin.antt =====
-- The FIN of `BrookTunnel.run`, and what was sent before it.
use iwa_brook_quic.Base.{
  ℕ, ◌≤◌, ◌≡◌, refl, sym, subst, either_way, if◌then◌else◌, Bool, true, false, not, ◌&&◌, ◌||◌, ◌⊎◌,
  inl, inr, Option, List, [], ◌∷◌, length,
}
use iwa_brook_quic.Framing.{Aead, Result, ok, err}
use iwa_brook_quic.Tunnel.State.{Options, client_abort}
use iwa_brook_quic.Tunnel.Cleanup.{cleanup}
use iwa_brook_quic.Tunnel.Upload.{slices}
use iwa_brook_quic.Tunnel.Upstream.{
  UpPhase, connecting, sending_nonce, awaiting_handshake, reading, sending_fin, awaiting_completion,
  ended, sending_header, sending_leftover, sending_chunk, ClientRead, read_value, read_done,
  read_throws, RunEvent, receives, resumes, reads, Run, is_settled, finish_run, leave_loop,
  next_client_read, frame_sent, with_frame, send_leftover, send_chunks, resume_up, after_read,
  client_read, run_step, run_all,
}
use iwa_brook_quic.Tunnel.Upstream.Progress.{Whole, UpInv, Sends}
use iwa_brook_quic.Tunnel.Upstream.Steps.{run_step-Sends}

-- No frame is sealed from here on.
abbrev pub is_over : UpPhase → Bool
is_over awaiting_completion = true
is_over ended = true
is_over _ = false

module _ {K : Type 0} where
  abbrev Unsent : Run K → Type 0
  Unsent r = r.fin_sent ≡ false

  leave_loop-Unsent : (r : Run K) → Unsent r → Unsent (leave_loop r)
  unfolding leave_loop finish_run
  leave_loop-Unsent r e =
      either_way Unsent (r.rx.is_terminated || r.rx.server_fin_received) (finish_run r) _ (λ _. e)
        (λ _. e)

  next_client_read-Unsent : (r : Run K) → Unsent r → Unsent (next_client_read r)
  unfolding next_client_read
  next_client_read-Unsent r e =
      either_way Unsent r.rx.is_terminated (leave_loop r) _ (λ _. leave_loop-Unsent r e) (λ _. e)

module _ {K : Type 0} (aead : Aead K) (derive : List ℕ → Option K) (options : Options) (key : K)
    (nonce header leftover : List ℕ) where
  with_frame-Unsent :
      (r : Run K) (sealed : List ℕ × Result (List ℕ)) (phase : List ℕ → UpPhase)
      → Unsent r
      → Unsent (with_frame aead derive options key nonce header leftover r sealed phase)
  unfolding finish_run
  with_frame-Unsent r (nonce', err x) phase e = e
  with_frame-Unsent r (nonce', ok frame) phase e = e

  send_leftover-Unsent :
      (rest : List (List ℕ)) (r : Run K)
      → Unsent r
      → Unsent (send_leftover aead derive options key nonce header leftover rest r)
  unfolding send_leftover
  send_leftover-Unsent [] r e = e
  send_leftover-Unsent (slice ∷ rest) r e = with_frame-Unsent r _ _ e

  send_chunks-Unsent :
      (rest : List (List ℕ)) (remaining : ℕ) (r : Run K)
      → Unsent r
      → Unsent (send_chunks aead derive options key nonce header leftover rest remaining r)
  unfolding send_chunks
  send_chunks-Unsent [] remaining r e = next_client_read-Unsent r e
  send_chunks-Unsent (slice ∷ rest) remaining r e = with_frame-Unsent r _ _ e

  after_read-Unsent :
      (read : ClientRead) (r : Run K)
      → Unsent r
      → Unsent (after_read aead derive options key nonce header leftover read r)
  unfolding after_read
  after_read-Unsent (read_value []) r e = next_client_read-Unsent r e
  after_read-Unsent (read_value (b ∷ bs)) r e = send_chunks-Unsent (slices (b ∷ bs)) _ _ e
  after_read-Unsent read_done r e =
      let t = record r.rx { client_read_closed = true } in
      either_way Unsent r.rx.server_handshake_done (record r { rx = t; up_phase = sending_fin }) _
        (λ _. e) (λ _. leave_loop-Unsent (record r { rx = cleanup client_abort t }) e)
  after_read-Unsent read_throws r e =
      leave_loop-Unsent (record r { rx = cleanup client_abort r.rx }) e

  -- The FIN was not sent; or it was, and all that was read was sent before it.
  abbrev pub FinInv : UpPhase → Run K → Type 0
  FinInv phase r =
      Unsent r
      ⊎ ((is_over phase ≡ true)
          × Whole aead derive options key nonce header leftover r.up r.consumed)

  abbrev FinOk : Run K → Type 0
  FinOk r = FinInv r.up_phase r

  leave_loop-FinOk :
      (r : Run K)
      → Whole aead derive options key nonce header leftover r.up r.consumed
      → FinOk (leave_loop r)
  unfolding leave_loop finish_run
  leave_loop-FinOk r w =
      either_way FinOk (r.rx.is_terminated || r.rx.server_fin_received) (finish_run r) _
        (λ _. inr (refl, w)) (λ _. inr (refl, w))

  kept-FinOk : {phase : UpPhase} (r : Run K) → r.up_phase ≡ phase → FinInv phase r → FinOk r
  kept-FinOk r e h = subst (λ p. FinInv p r) (sym e) h

  awaited-Unsent :
      (waits done : Bool) (r : Run K)
      → Unsent r
      → Unsent (if waits then r else if done then next_client_read r else finish_run r)
  unfolding finish_run
  awaited-Unsent true done r e = e
  awaited-Unsent false true r e = next_client_read-Unsent r e
  awaited-Unsent false false r e = e

  completed-FinOk :
      (completed : Bool) (r : Run K)
      → r.up_phase ≡ awaiting_completion
      → FinInv awaiting_completion r
      → FinOk (if completed then finish_run r else r)
  unfolding finish_run
  completed-FinOk true r e (inl h) = inl h
  completed-FinOk true r e (inr h) = inr (refl, h.1)
  completed-FinOk false r e h = kept-FinOk r e h

  resume_up-FinOk :
      (is_done : Bool) (phase : UpPhase) (r : Run K)
      → r.up_phase ≡ phase
      → UpInv aead derive options key nonce header leftover phase r.up r.consumed
      → FinInv phase r
      → FinOk (resume_up aead derive options key nonce header leftover is_done phase r)
  unfolding resume_up finish_run
  resume_up-FinOk true connecting r e s (inl h) = inl h
  resume_up-FinOk true connecting r e s (inr h) = absurd (cc)
  resume_up-FinOk false connecting r e s (inl h) = inl h
  resume_up-FinOk false connecting r e s (inr h) = absurd (cc)
  resume_up-FinOk true sending_nonce r e s (inl h) =
      inl (with_frame-Unsent (record r { up = frame_sent nonce r.up }) _ _ h)
  resume_up-FinOk true sending_nonce r e s (inr h) = absurd (cc)
  resume_up-FinOk false sending_nonce r e s (inl h) = inl h
  resume_up-FinOk false sending_nonce r e s (inr h) = absurd (cc)
  resume_up-FinOk true (sending_header frame) r e s (inl h) =
      inl (send_leftover-Unsent (slices leftover) _ h)
  resume_up-FinOk true (sending_header frame) r e s (inr h) = absurd (cc)
  resume_up-FinOk false (sending_header frame) r e s (inl h) = inl h
  resume_up-FinOk false (sending_header frame) r e s (inr h) = absurd (cc)
  resume_up-FinOk true (sending_leftover frame slice rest) r e s (inl h) =
      inl (send_leftover-Unsent rest _ h)
  resume_up-FinOk true (sending_leftover frame slice rest) r e s (inr h) = absurd (cc)
  resume_up-FinOk false (sending_leftover frame slice rest) r e s (inl h) = inl h
  resume_up-FinOk false (sending_leftover frame slice rest) r e s (inr h) = absurd (cc)
  resume_up-FinOk true (sending_chunk frame slice rest remaining) r e s (inl h) =
      inl (send_chunks-Unsent rest _ _ h)
  resume_up-FinOk true (sending_chunk frame slice rest remaining) r e s (inr h) = absurd (cc)
  resume_up-FinOk false (sending_chunk frame slice rest remaining) r e s (inl h) =
      inl (leave_loop-Unsent _ h)
  resume_up-FinOk false (sending_chunk frame slice rest remaining) r e s (inr h) = absurd (cc)
  resume_up-FinOk true awaiting_handshake r e s (inl h) = inl (
      awaited-Unsent (not (is_settled r.rx.handshake))
        (r.rx.server_handshake_done && not r.rx.is_terminated) r h)
  resume_up-FinOk true awaiting_handshake r e s (inr h) = absurd (cc)
  resume_up-FinOk false awaiting_handshake r e s (inl h) = inl (
      awaited-Unsent (not (is_settled r.rx.handshake))
        (r.rx.server_handshake_done && not r.rx.is_terminated) r h)
  resume_up-FinOk false awaiting_handshake r e s (inr h) = absurd (cc)
  resume_up-FinOk true sending_fin r e s h = leave_loop-FinOk _ s
  resume_up-FinOk false sending_fin r e s h = leave_loop-FinOk _ s
  resume_up-FinOk true awaiting_completion r e s h = completed-FinOk r.rx.is_completed r e h
  resume_up-FinOk false awaiting_completion r e s h = completed-FinOk r.rx.is_completed r e h
  resume_up-FinOk true reading r e s h = kept-FinOk r e h
  resume_up-FinOk false reading r e s h = kept-FinOk r e h
  resume_up-FinOk true ended r e s h = kept-FinOk r e h
  resume_up-FinOk false ended r e s h = kept-FinOk r e h

  client_read-FinOk :
      (read : ClientRead) (phase : UpPhase) (r : Run K)
      → r.up_phase ≡ phase
      → FinInv phase r
      → FinOk (client_read aead derive options key nonce header leftover read phase r)
  unfolding client_read
  client_read-FinOk read reading r e (inl h) = inl (after_read-Unsent read r h)
  client_read-FinOk read reading r e (inr h) = absurd (cc)
  client_read-FinOk read connecting r e h = kept-FinOk r e h
  client_read-FinOk read sending_nonce r e h = kept-FinOk r e h
  client_read-FinOk read awaiting_handshake r e h = kept-FinOk r e h
  client_read-FinOk read sending_fin r e h = kept-FinOk r e h
  client_read-FinOk read awaiting_completion r e h = kept-FinOk r e h
  client_read-FinOk read ended r e h = kept-FinOk r e h
  client_read-FinOk read (sending_header frame) r e h = kept-FinOk r e h
  client_read-FinOk read (sending_leftover frame slice rest) r e h = kept-FinOk r e h
  client_read-FinOk read (sending_chunk frame slice rest remaining) r e h = kept-FinOk r e h

  -- What holds of a run before each turn.
  abbrev pub RunInv : Run K → Type 0
  RunInv r = Sends aead derive options key nonce header leftover r × FinOk r

  run_step-RunInv :
      (event : RunEvent) (r : Run K)
      → length header ≤ 65519
      → RunInv r
      → RunInv (run_step aead derive options key nonce header leftover event r)
  unfolding run_step
  run_step-RunInv (receives event) r small h = h
  run_step-RunInv (resumes is_done) r small h = (
    run_step-Sends aead derive options key nonce header leftover (resumes is_done) r small h.0,
    resume_up-FinOk is_done r.up_phase r refl h.0 h.1,
  )
  run_step-RunInv (reads read) r small h = (
    run_step-Sends aead derive options key nonce header leftover (reads read) r small h.0,
    client_read-FinOk read r.up_phase r refl h.1,
  )

  pub run_all-RunInv :
      (events : List RunEvent) (r : Run K)
      → length header ≤ 65519
      → RunInv r
      → RunInv (run_all aead derive options key nonce header leftover events r)
  unfolding run_all
  run_all-RunInv [] r small h = h
  run_all-RunInv (event ∷ events) r small h =
      run_all-RunInv events _ small (run_step-RunInv event r small h)
