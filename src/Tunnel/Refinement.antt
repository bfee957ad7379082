-- ===== src/Tunnel/Refinement.antt =====
-- The receive side as a whole refines the decoder: every order of chunks, turns, timers and failures.
use iwa_brook_quic.Base.{
  ℕ, ◌+◌, refl, ltb, if◌then◌else◌, either_way, Bool, true, false, not, ◌||◌, Option, none, some,
  List, [], ◌∷◌, ◌++◌, length, arith, append-nil,
}
use iwa_brook_quic.Framing.{Aead}
use iwa_brook_quic.Tunnel.State.{
  Tunnel, Options, max_rx_buffer_bytes, start, transport_closed, rx_overflow, stream_error,
  idle_timeout, handshake_timeout,
}
use iwa_brook_quic.Tunnel.Cleanup.{reset_idle_timer, cleanup, check_full_close, finish_cleanup}
use iwa_brook_quic.Tunnel.Decode.{is_empty}
use iwa_brook_quic.Tunnel.Rx.{process_rx_queue}
use iwa_brook_quic.Tunnel.Callbacks.{
  Event, data_arrives, transport_closes, transport_fails, idle_expires, handshake_expires,
  rx_resumes, microtask_runs, cleanup_resumes, on_data, on_close, on_error, on_idle_timeout,
  on_handshake_timeout, run_microtask, step,
}
use iwa_brook_quic.Tunnel.Decoder.{IsStuck, awaiting_nonce, stop}
use iwa_brook_quic.Tunnel.Stream.{Inv}
use iwa_brook_quic.Tunnel.Delivery.{process_rx_queue-Inv}
use iwa_brook_quic.Tunnel.Turns.{
  resume_rx-Inv, cleanup-Inv, check_full_close-Inv, push-Inv, aside-InPhase,
}

-- The bytes that an event brings and `onData` takes.
abbrev pub accepted : {K : Type 0} → Event → Tunnel K → List ℕ
accepted (data_arrives chunk fin) t =
    if t.is_terminated || ltb max_rx_buffer_bytes (t.rx_queued_bytes + length chunk)
    then []
    else chunk
accepted _ t = []

module _ {K : Type 0} (aead : Aead K) (derive : List ℕ → Option K) (options : Options) where
  data-Inv :
      (over full : Bool) (seen chunk : List ℕ) (fin : Bool) (t : Tunnel K)
      → Inv aead derive seen t
      → Inv aead derive (seen ++ (if over || full then [] else chunk)) (
          if over
          then t
          else if full
          then cleanup rx_overflow (reset_idle_timer none t)
          else process_rx_queue aead derive (record (reset_idle_timer none t) {
            rx_queued_bytes = t.rx_queued_bytes + length chunk;
            metrics_rx_queued = t.metrics_rx_queued + length chunk;
            rx_queue = t.rx_queue ++ (record { chunk = chunk; fin = fin } ∷ []);
          }))
  unfolding reset_idle_timer
  data-Inv true full seen chunk fin t h = rw append-nil h
  data-Inv false true seen chunk fin t h = rw append-nil (
      cleanup-Inv aead derive seen rx_overflow (reset_idle_timer none t)
        (aside-InPhase aead derive seen t.phase t _ _ _ _ _ _ _ _ _ _ h))
  data-Inv false false seen chunk fin t h = process_rx_queue-Inv aead derive (seen ++ chunk) _ (
      aside-InPhase aead derive (seen ++ chunk) t.phase _ _ _ _ _ _ _ _ _ _ _
        (push-Inv aead derive seen (record { chunk = chunk; fin = fin }) t h))

  close-Inv :
      (seen : List ℕ) (t : Tunnel K) → Inv aead derive seen t → Inv aead derive seen (on_close t)
  unfolding on_close
  close-Inv seen t h =
      let t' = record t { transport_closed = true } in
      let I = Inv aead derive seen in
      let h' : I t' = aside-InPhase aead derive seen t.phase t _ _ _ _ _ _ _ _ _ _ h in
      either_way I (not (is_empty t.rx_queue) || t.is_processing_rx || t.is_terminated) t' _
        (λ _. h')
        (λ _.
          either_way I (not t.server_fin_received) (cleanup transport_closed t')
            (check_full_close t') (λ _. cleanup-Inv aead derive seen transport_closed t' h')
            (λ _. check_full_close-Inv aead derive seen t' h'))

  idle_timeout-Inv :
      (timer : Option ℕ) (seen : List ℕ) (t : Tunnel K)
      → Inv aead derive seen t
      → Inv aead derive seen (elim timer [
        | none ↦ t
        | some timeout ↦ cleanup idle_timeout (record t { idle_timer = none })
      ])
  idle_timeout-Inv none seen t h = h
  idle_timeout-Inv (some n) seen t h =
      cleanup-Inv aead derive seen idle_timeout (record t { idle_timer = none })
        (aside-InPhase aead derive seen t.phase t _ _ _ _ _ _ _ _ _ _ h)

  handshake_timeout-Inv :
      (seen : List ℕ) (t : Tunnel K)
      → Inv aead derive seen t
      → Inv aead derive seen (on_handshake_timeout t)
  unfolding on_handshake_timeout
  handshake_timeout-Inv seen t h =
      let t' = record t { handshake_timer = false } in
      let I = Inv aead derive seen in
      let h' : I t' = aside-InPhase aead derive seen t.phase t _ _ _ _ _ _ _ _ _ _ h in
      either_way I t.handshake_timer _ t
        (λ _.
          either_way I t.server_handshake_done t' (cleanup handshake_timeout t') (λ _. h')
            (λ _. cleanup-Inv aead derive seen handshake_timeout t' h'))
        (λ _. h)

  microtask-Inv :
      (seen : List ℕ) (t : Tunnel K)
      → Inv aead derive seen t
      → Inv aead derive seen (run_microtask aead derive t)
  unfolding run_microtask
  microtask-Inv seen t h =
      either_way (Inv aead derive seen) t.rx_scheduled
        (process_rx_queue aead derive (record t { rx_scheduled = false })) t
        (λ _.
          process_rx_queue-Inv aead derive seen (record t { rx_scheduled = false })
            (aside-InPhase aead derive seen t.phase t _ _ _ _ _ _ _ _ _ _ h))
        (λ _. h)

  pub step-Inv :
      (event : Event) (seen : List ℕ) (t : Tunnel K)
      → Inv aead derive seen t
      → Inv aead derive (seen ++ accepted event t) (step aead derive options event t)
  unfolding step on_data on_error on_idle_timeout finish_cleanup
  step-Inv (data_arrives chunk fin) seen t h =
      data-Inv t.is_terminated (ltb max_rx_buffer_bytes (t.rx_queued_bytes + length chunk)) seen
        chunk fin t h
  step-Inv transport_closes seen t h = rw append-nil (close-Inv seen t h)
  step-Inv transport_fails seen t h = rw append-nil (cleanup-Inv aead derive seen stream_error t h)
  step-Inv idle_expires seen t h = rw append-nil (idle_timeout-Inv t.idle_timer seen t h)
  step-Inv handshake_expires seen t h = rw append-nil (handshake_timeout-Inv seen t h)
  step-Inv (rx_resumes is_done) seen t h =
      rw append-nil (resume_rx-Inv aead derive options seen is_done t h)
  step-Inv microtask_runs seen t h = rw append-nil (microtask-Inv seen t h)
  step-Inv cleanup_resumes seen t h =
      rw append-nil (aside-InPhase aead derive seen t.phase t _ _ _ _ _ _ _ _ _ _ h)

  pub start-Inv : (metrics : ℕ) → Inv aead derive [] (start metrics)
  start-Inv metrics =
      let stuck : IsStuck {K = K} awaiting_nonce [] = λ n e. ground arith in
      (([], _, _, stop), λ _. (stop, ((λ f. cc), λ _. refl), stuck))
