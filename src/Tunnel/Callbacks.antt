-- ===== src/Tunnel/Callbacks.antt =====
-- What happens to the receive side: the stream's callbacks, the timers, and the scheduler's turns.
use iwa_brook_quic.Base.{
  ℕ, ◌+◌, ltb, if◌then◌else◌, Bool, true, false, not, ◌||◌, Option, none, some, List, [], ◌∷◌, ◌++◌,
  length,
}
use iwa_brook_quic.Framing.{Aead}
use iwa_brook_quic.Tunnel.State.{
  Tunnel, Options, max_rx_buffer_bytes, transport_closed, rx_overflow, stream_error, idle_timeout,
  handshake_timeout,
}
use iwa_brook_quic.Tunnel.Cleanup.{reset_idle_timer, cleanup, check_full_close, finish_cleanup}
use iwa_brook_quic.Tunnel.Decode.{is_empty}
use iwa_brook_quic.Tunnel.Rx.{process_rx_queue, resume_rx}

module _ {K : Type 0} (aead : Aead K) (derive : List ℕ → Option K) where
  -- `onData`
  unfoldable pub on_data : List ℕ → Bool → Tunnel K → Tunnel K
  on_data chunk fin t =
      let t' = reset_idle_timer none t in
      let queued = t.rx_queued_bytes + length chunk in
      if t.is_terminated
      then t
      else if ltb max_rx_buffer_bytes queued
      then cleanup rx_overflow t'
      else process_rx_queue aead derive (record t' {
        rx_queued_bytes = queued;
        metrics_rx_queued = t.metrics_rx_queued + length chunk;
        rx_queue = t.rx_queue ++ (record { chunk = chunk; fin = fin } ∷ []);
      })

  -- The microtask that `finally` schedules.
  unfoldable pub run_microtask : Tunnel K → Tunnel K
  run_microtask t =
      if t.rx_scheduled then process_rx_queue aead derive (record t { rx_scheduled = false }) else t

module _ {K : Type 0} where
  -- `onClose` and `onError`
  unfoldable pub on_close : Tunnel K → Tunnel K
  on_close t =
      let t' = record t { transport_closed = true } in
      if not (is_empty t.rx_queue) || t.is_processing_rx || t.is_terminated
      then t'
      else if not t.server_fin_received
      then cleanup transport_closed t'
      else check_full_close t'

  unfoldable pub on_error : Tunnel K → Tunnel K
  on_error t = cleanup stream_error t

  -- The callbacks of the two timers.
  unfoldable pub on_idle_timeout : Tunnel K → Tunnel K
  on_idle_timeout t = elim t.idle_timer [
    | none ↦ t
    | some timeout ↦ cleanup idle_timeout (record t { idle_timer = none })
  ]

  unfoldable pub on_handshake_timeout : Tunnel K → Tunnel K
  on_handshake_timeout t =
      let t' = record t { handshake_timer = false } in
      if t.handshake_timer
      then if t.server_handshake_done then t' else cleanup handshake_timeout t'
      else t

-- A turn of the event loop that concerns the receive side.
pub data Event : Type 0 where
  data_arrives : List ℕ → Bool → Event
  transport_closes transport_fails idle_expires handshake_expires : Event
  rx_resumes : Bool → Event
  microtask_runs cleanup_resumes : Event

module _ {K : Type 0} (aead : Aead K) (derive : List ℕ → Option K) (options : Options) where
  unfoldable pub step : Event → Tunnel K → Tunnel K
  step (data_arrives chunk fin) t = on_data aead derive chunk fin t
  step transport_closes t = on_close t
  step transport_fails t = on_error t
  step idle_expires t = on_idle_timeout t
  step handshake_expires t = on_handshake_timeout t
  step (rx_resumes is_done) t = resume_rx aead derive options is_done t
  step microtask_runs t = run_microtask aead derive t
  step cleanup_resumes t = finish_cleanup options t
