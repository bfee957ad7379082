-- ===== src/Tunnel/Upstream/Rule.antt =====
-- An invariant rule for the receive side within the whole run: what the operations keep by which the
-- sending side touches it is kept by each turn of the sending side.
use iwa_brook_quic.Base.{
  ℕ, if◌then◌else◌, either_way, Bool, true, false, not, ◌&&◌, ◌||◌, Option, none, some, List, [],
  ◌∷◌,
}
use iwa_brook_quic.Framing.{Aead, Result, ok, err}
use iwa_brook_quic.Tunnel.State.{
  Tunnel, Options, Reason, loop_exit, tunnel_error, client_abort, upstream_write_failed,
}
use iwa_brook_quic.Tunnel.Cleanup.{cleanup, check_full_close, reset_idle_timer}
use iwa_brook_quic.Tunnel.Upload.{slices}
use iwa_brook_quic.Tunnel.Upstream.{
  UpPhase, connecting, sending_nonce, awaiting_handshake, reading, sending_fin, awaiting_completion,
  ended, sending_header, sending_leftover, sending_chunk, ClientRead, read_value, read_done,
  read_throws, Run, is_settled, is_nil, finish_run, run_throws, leave_loop, next_client_read,
  frame_sent, with_frame, send_leftover, send_chunks, resume_up, after_read, client_read,
}

module _ {K : Type 0} (aead : Aead K) (derive : List ℕ → Option K) (P : Tunnel K → Type 0)
    (cleans : (reason : Reason) (t : Tunnel K) → P t → P (cleanup reason t))
    (shuts : (t : Tunnel K) → P t → P (check_full_close t))
    (timed : (duration_ms : Option ℕ) (t : Tunnel K) → P t → P (reset_idle_timer duration_ms t))
    (noted : (exchanged closed : Bool) (t : Tunnel K)
      → P t
      → P (record t { has_exchanged_data = exchanged; client_read_closed = closed }))
    (armed : (t : Tunnel K) → P t → P (record t { handshake_timer = true })) where
  abbrev Kept : Run K → Type 0
  Kept r = P r.rx

  finish_run-Kept : (r : Run K) → Kept r → Kept (finish_run r)
  unfolding finish_run
  finish_run-Kept r h = cleans loop_exit r.rx h

  leave_loop-Kept : (r : Run K) → Kept r → Kept (leave_loop r)
  unfolding leave_loop
  leave_loop-Kept r h =
      either_way Kept (r.rx.is_terminated || r.rx.server_fin_received) (finish_run r) _
        (λ _. finish_run-Kept r h) (λ _. h)

  next_client_read-Kept : (r : Run K) → Kept r → Kept (next_client_read r)
  unfolding next_client_read
  next_client_read-Kept r h =
      either_way Kept r.rx.is_terminated (leave_loop r) _ (λ _. leave_loop-Kept r h) (λ _. h)

  module _ (options : Options) (key : K) (nonce header leftover : List ℕ) where
    with_frame-Kept :
        (r : Run K) (sealed : List ℕ × Result (List ℕ)) (phase : List ℕ → UpPhase)
        → Kept r
        → Kept (with_frame aead derive options key nonce header leftover r sealed phase)
    with_frame-Kept r (nonce', err e) phase h = finish_run-Kept _ (cleans tunnel_error r.rx h)
    with_frame-Kept r (nonce', ok frame) phase h = h

    send_leftover-Kept :
        (rest : List (List ℕ)) (r : Run K)
        → Kept r
        → Kept (send_leftover aead derive options key nonce header leftover rest r)
    unfolding send_leftover
    send_leftover-Kept [] r h = armed r.rx h
    send_leftover-Kept (slice ∷ rest) r h = with_frame-Kept r _ _ h

    send_chunks-Kept :
        (rest : List (List ℕ)) (remaining : ℕ) (r : Run K)
        → Kept r
        → Kept (send_chunks aead derive options key nonce header leftover rest remaining r)
    unfolding send_chunks
    send_chunks-Kept [] remaining r h = next_client_read-Kept r h
    send_chunks-Kept (slice ∷ rest) remaining r h = with_frame-Kept r _ _ h

    throws-Kept : (r : Run K) → Kept r → Kept (run_throws r)
    throws-Kept r h = finish_run-Kept _ (cleans tunnel_error r.rx h)

    awaited-Kept :
        (waits done : Bool) (r : Run K)
        → Kept r
        → Kept (if waits then r else if done then next_client_read r else finish_run r)
    awaited-Kept true done r h = h
    awaited-Kept false true r h = next_client_read-Kept r h
    awaited-Kept false false r h = finish_run-Kept r h

    header_sent-Kept :
        (frame : List ℕ) (is_none_left : Bool) (r : Run K)
        → Kept r
        → Kept (
            send_leftover aead derive options key nonce header leftover
              (slices leftover)
              (record r {
                rx = if is_none_left then r.rx else record r.rx { has_exchanged_data = true };
                up = frame_sent frame r.up;
              }))
    header_sent-Kept frame true r h = send_leftover-Kept (slices leftover) _ h
    header_sent-Kept frame false r h =
        send_leftover-Kept (slices leftover) _ (noted true r.rx.client_read_closed r.rx h)

    fin_sent-Kept :
        (b is_done : Bool) (r : Run K)
        → Kept r
        → Kept (
            leave_loop (record r {
              rx = if b then r.rx else reset_idle_timer (some 15000) r.rx;
              fin_sent = is_done;
            }))
    fin_sent-Kept true is_done r h = leave_loop-Kept _ h
    fin_sent-Kept false is_done r h = leave_loop-Kept _ (timed (some 15000) r.rx h)

    -- The FIN is tried.
    closing-Kept :
        (is_done : Bool) (r : Run K)
        → Kept r
        → Kept (resume_up aead derive options key nonce header leftover is_done sending_fin r)
    unfolding resume_up
    closing-Kept is_done r h =
        let t = check_full_close r.rx in
        let h' = shuts r.rx h in
        elim is_done
          as (λ b. Kept (resume_up aead derive options key nonce header leftover b sending_fin r)) [
            | true ↦
                fin_sent-Kept (t.is_terminated || t.server_fin_received) true (record r { rx = t })
                  h'
            | false ↦
                fin_sent-Kept (t.is_terminated || t.server_fin_received) false (record r { rx = t })
                  h'
          ]

    pub resume_up-Kept :
        (is_done : Bool) (phase : UpPhase) (r : Run K)
        → Kept r
        → Kept (resume_up aead derive options key nonce header leftover is_done phase r)
    unfolding resume_up
    resume_up-Kept true connecting r h = h
    resume_up-Kept false connecting r h = throws-Kept r h
    resume_up-Kept true sending_nonce r h =
        with_frame-Kept (record r { up = frame_sent nonce r.up }) _ _ h
    resume_up-Kept false sending_nonce r h = throws-Kept r h
    resume_up-Kept true (sending_header frame) r h = header_sent-Kept frame (is_nil leftover) r h
    resume_up-Kept false (sending_header frame) r h = throws-Kept r h
    resume_up-Kept true (sending_leftover frame slice rest) r h = send_leftover-Kept rest _ h
    resume_up-Kept false (sending_leftover frame slice rest) r h = throws-Kept r h
    resume_up-Kept true (sending_chunk frame slice rest n) r h = send_chunks-Kept rest _ _ h
    resume_up-Kept false (sending_chunk frame slice rest n) r h =
        leave_loop-Kept _ (cleans upstream_write_failed r.rx h)
    resume_up-Kept true awaiting_handshake r h =
        awaited-Kept (not (is_settled r.rx.handshake))
          (r.rx.server_handshake_done && not r.rx.is_terminated) r h
    resume_up-Kept false awaiting_handshake r h =
        awaited-Kept (not (is_settled r.rx.handshake))
          (r.rx.server_handshake_done && not r.rx.is_terminated) r h
    resume_up-Kept true sending_fin r h = closing-Kept true r h
    resume_up-Kept false sending_fin r h = closing-Kept false r h
    resume_up-Kept true awaiting_completion r h =
        either_way Kept r.rx.is_completed (finish_run r) r (λ _. finish_run-Kept r h) (λ _. h)
    resume_up-Kept false awaiting_completion r h =
        either_way Kept r.rx.is_completed (finish_run r) r (λ _. finish_run-Kept r h) (λ _. h)
    resume_up-Kept true reading r h = h
    resume_up-Kept false reading r h = h
    resume_up-Kept true ended r h = h
    resume_up-Kept false ended r h = h

    after_read-Kept :
        (read : ClientRead) (r : Run K)
        → Kept r
        → Kept (after_read aead derive options key nonce header leftover read r)
    unfolding after_read
    after_read-Kept (read_value []) r h = next_client_read-Kept r h
    after_read-Kept (read_value (b ∷ bs)) r h =
        send_chunks-Kept (slices (b ∷ bs)) _ _
          (timed none _ (noted true r.rx.client_read_closed r.rx h))
    after_read-Kept read_done r h =
        let t = record r.rx { client_read_closed = true } in
        let h' = noted r.rx.has_exchanged_data true r.rx h in
        either_way Kept r.rx.server_handshake_done (record r { rx = t; up_phase = sending_fin }) _
          (λ _. h')
          (λ _.
            leave_loop-Kept (record r { rx = cleanup client_abort t }) (cleans client_abort t h'))
    after_read-Kept read_throws r h =
        leave_loop-Kept (record r { rx = cleanup client_abort r.rx }) (cleans client_abort r.rx h)

    pub client_read-Kept :
        (read : ClientRead) (phase : UpPhase) (r : Run K)
        → Kept r
        → Kept (client_read aead derive options key nonce header leftover read phase r)
    unfolding client_read
    client_read-Kept read reading r h = after_read-Kept read r h
    client_read-Kept read connecting r h = h
    client_read-Kept read sending_nonce r h = h
    client_read-Kept read awaiting_handshake r h = h
    client_read-Kept read sending_fin r h = h
    client_read-Kept read awaiting_completion r h = h
    client_read-Kept read ended r h = h
    client_read-Kept read (sending_header frame) r h = h
    client_read-Kept read (sending_leftover frame slice rest) r h = h
    client_read-Kept read (sending_chunk frame slice rest n) r h = h
