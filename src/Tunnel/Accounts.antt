-- ===== src/Tunnel/Accounts.antt =====
-- Every turn of the event loop keeps the accounts of the receive queue.
use iwa_brook_quic.Base.{
  ℕ, ◌+◌, ◌≡◌, refl, Bool, true, false, Option, none, some, List, [], ◌∷◌, ◌++◌, length, arith,
}
use iwa_brook_quic.Framing.{Aead, ok, err}
use iwa_brook_quic.Tunnel.State.{
  Tunnel, Options, Item, Phase, idle, deriving_key, sending_success, opening_length,
  opening_payload, writing, closing, rx_error, decrypt_error, client_write_error, rx_overflow,
  stream_error, idle_timeout, handshake_timeout, transport_closed,
}
use iwa_brook_quic.Tunnel.Cleanup.{reset_idle_timer, finish_cleanup}
use iwa_brook_quic.Tunnel.Decode.{settle_handshake}
use iwa_brook_quic.Tunnel.Rx.{deliver, accept_key, resume_phase, resume_rx}
use iwa_brook_quic.Tunnel.Callbacks.{
  Event, data_arrives, transport_closes, transport_fails, idle_expires, handshake_expires,
  rx_resumes, microtask_runs, cleanup_resumes, on_data, on_close, on_error, on_idle_timeout,
  on_handshake_timeout, run_microtask, step,
}
use iwa_brook_quic.Tunnel.Queue.{
  queue_bytes, Balanced, Accounts, Sound, cleanup-Sound, check_full_close-Sound, after_close-Sound,
  decode_frames-Sound, decode_payload-Sound, settle-Accounts, process_rx_queue-Accounts,
}

queue_bytes-append : (q r : List Item) → queue_bytes (q ++ r) ≡ queue_bytes q + queue_bytes r
queue_bytes-append [] r = omega arith
queue_bytes-append (item ∷ q) r = omega (arith, queue_bytes-append q r)

module _ {K : Type 0} (others : ℕ) (aead : Aead K) (derive : List ℕ → Option K)
    (options : Options) where
  deliver-Sound :
      (fin : Bool) (plain : List ℕ) (t : Tunnel K)
      → Accounts others t
      → Sound others t (deliver aead derive fin plain t).0
  unfolding deliver
  deliver-Sound fin plain t v =
      ground
        (arith, decode_frames-Sound others aead fin (record t { expected_payload_len = none }) v)

  accept_key-Sound :
      (fin : Bool) (key : K) (t : Tunnel K)
      → Accounts others t
      → Sound others t (accept_key aead derive options fin key t).0
  unfolding accept_key settle_handshake
  accept_key-Sound fin key t v =
      let t' = record t {
        server_cipher = some key;
        server_handshake_done = true;
        handshake_timer = false;
      } in
      ground (arith, decode_frames-Sound others aead fin (settle_handshake t') v)

  resume_phase-Sound :
      (is_done : Bool) (phase : Phase K) (t : Tunnel K)
      → Accounts others t
      → Sound others t (resume_phase aead derive options is_done phase t).0
  unfolding resume_phase settle_handshake reset_idle_timer
  resume_phase-Sound is_done idle t v = (v, refl)
  resume_phase-Sound is_done (deriving_key fin none) t v = cleanup-Sound others rx_error t v
  resume_phase-Sound is_done (deriving_key fin (some key)) t v = accept_key-Sound fin key t v
  resume_phase-Sound is_done (sending_success fin) t v =
      decode_frames-Sound others aead fin (settle_handshake t) v
  resume_phase-Sound is_done (opening_length fin (err e)) t v =
      cleanup-Sound others decrypt_error t v
  resume_phase-Sound is_done (opening_length fin (ok len)) t v =
      decode_payload-Sound others aead fin len (record t { expected_payload_len = some len }) v
  resume_phase-Sound is_done (opening_payload fin (err e)) t v =
      cleanup-Sound others decrypt_error t v
  resume_phase-Sound is_done (opening_payload fin (ok plain)) t v = deliver-Sound fin plain t v
  resume_phase-Sound true (writing fin) t v =
      decode_frames-Sound others aead fin (reset_idle_timer none t) v
  resume_phase-Sound false (writing fin) t v = cleanup-Sound others client_write_error t v
  resume_phase-Sound is_done closing t v = after_close-Sound others t v

  on_data-Accounts :
      (chunk : List ℕ) (fin : Bool) (t : Tunnel K)
      → Accounts others t
      → Accounts others (on_data aead derive chunk fin t)
  unfolding on_data reset_idle_timer
  on_data-Accounts chunk fin t v =
      let item : Item = record { chunk = chunk; fin = fin } in
      let t' = reset_idle_timer none t in
      let pushed = record t' {
        rx_queued_bytes = t.rx_queued_bytes + length chunk;
        metrics_rx_queued = t.metrics_rx_queued + length chunk;
        rx_queue = t.rx_queue ++ (item ∷ []);
      } in
      ground (
        arith,
        cleanup-Sound others rx_overflow t' v,
        queue_bytes-append t.rx_queue (item ∷ []),
        process_rx_queue-Accounts others aead derive pushed,
      )

  -- Every turn keeps them, whatever the others' share.
  pub step-Accounts :
      (event : Event) (t : Tunnel K)
      → Accounts others t
      → Accounts others (step aead derive options event t)
  unfolding step
  step-Accounts (data_arrives chunk fin) t v = on_data-Accounts chunk fin t v
  step-Accounts transport_closes t v =
      unfold on_close in
      ground (
        arith,
        cleanup-Sound others transport_closed (record t { transport_closed = true }) v,
        check_full_close-Sound others (record t { transport_closed = true }) v,
      )
  step-Accounts transport_fails t v = unfold on_error in (cleanup-Sound others stream_error t v).0
  step-Accounts idle_expires t v =
      unfold on_idle_timeout in
      ground (arith, cleanup-Sound others idle_timeout (record t { idle_timer = none }) v)
  step-Accounts handshake_expires t v =
      unfold on_handshake_timeout in
      ground
        (arith, cleanup-Sound others handshake_timeout (record t { handshake_timer = false }) v)
  step-Accounts (rx_resumes is_done) t v =
      unfold resume_rx in
      settle-Accounts others aead derive t _ (resume_phase-Sound is_done t.phase t v)
  step-Accounts microtask_runs t v =
      unfold run_microtask in
      ground
        (arith, process_rx_queue-Accounts others aead derive (record t { rx_scheduled = false }) v)
  step-Accounts cleanup_resumes t v = unfold finish_cleanup in v

pub start-Balanced : (others : ℕ) → Balanced others false 0 others []
start-Balanced others = record {
  counted = λ _. refl;
  ended = λ _. refl;
  bounded = omega arith;
  balance = omega arith;
}
