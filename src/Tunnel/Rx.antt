-- ===== src/Tunnel/Rx.antt =====
-- `processRxQueue`: its loop over the queue, and the code behind each of its `await`s.
use iwa_brook_quic.Base.{
  ℕ, ◌+◌, ◌==◌, if◌then◌else◌, Bool, true, false, not, ◌&&◌, ◌||◌, Option, none, some, List, [],
  ◌∷◌, ◌++◌, length,
}
use iwa_brook_quic.Framing.{Aead, ok, err}
use iwa_brook_quic.Tunnel.State.{
  Tunnel, Options, Item, Phase, idle, deriving_key, sending_success, opening_length,
  opening_payload, writing, closing, decrypt_error, client_write_error, rx_error,
}
use iwa_brook_quic.Tunnel.Cleanup.{reset_idle_timer, cleanup}
use iwa_brook_quic.Tunnel.Decode.{
  Next, suspended, continued, returned, shift_item, after_close, finish_rx, settle_handshake,
  decode_payload, decode_frames, take_item,
}

-- Wait, go on with the rest of the queue, or leave.
unfoldable pub next_round : {K : Type 0} → Next → Tunnel K → Tunnel K → Tunnel K
next_round suspended t rest = t
next_round continued t rest = rest
next_round returned t rest = finish_rx t

module _ {K : Type 0} (aead : Aead K) (derive : List ℕ → Option K) where
  unfoldable pub run_queue : List Item → Tunnel K → Tunnel K
  run_queue [] t = finish_rx t
  run_queue (item ∷ queue) t =
      let (t', next) = take_item aead derive item (shift_item item queue t) in
      let rest = run_queue queue t' in
      if t.is_terminated then finish_rx t else next_round next t' rest

  unfoldable pub settle : Tunnel K × Next → Tunnel K
  settle (t, suspended) = t
  settle (t, continued) = run_queue t.rx_queue t
  settle (t, returned) = finish_rx t

  unfoldable pub process_rx_queue : Tunnel K → Tunnel K
  process_rx_queue t =
      if t.is_processing_rx || t.is_terminated
      then t
      else run_queue t.rx_queue (record t { is_processing_rx = true })

  -- The decrypted bytes go to the client, and the loop waits for the write.
  unfoldable pub deliver : Bool → List ℕ → Tunnel K → Tunnel K × Next
  deliver fin plain t =
      let t' = record t { expected_payload_len = none } in
      if length plain == 0 then decode_frames aead fin t' else (
        record t' {
          has_exchanged_data = true;
          total_bytes_recv = t.total_bytes_recv + length plain;
          written = t.written ++ plain;
          phase = writing fin;
        },
        suspended,
      )

  -- The key of the server is there: `sendSuccess` is called once.
  unfoldable pub accept_key : Options → Bool → K → Tunnel K → Tunnel K × Next
  accept_key options fin key t =
      let t' = record t {
        server_cipher = some key;
        server_handshake_done = true;
        handshake_timer = false;
      } in
      if options.has_send_success && not t.success_sent
      then (record t' { success_sent = true; phase = sending_success fin }, suspended)
      else decode_frames aead fin (settle_handshake t')

  -- The code behind each `await`. `is_done` is whether an awaited write went through.
  unfoldable pub resume_phase : Options → Bool → Phase K → Tunnel K → Tunnel K × Next
  resume_phase options is_done idle t = (t, suspended)
  resume_phase options is_done (deriving_key fin none) t = (cleanup rx_error t, returned)
  resume_phase options is_done (deriving_key fin (some key)) t = accept_key options fin key t
  resume_phase options is_done (sending_success fin) t = decode_frames aead fin (settle_handshake t)
  resume_phase options is_done (opening_length fin (err e)) t = (cleanup decrypt_error t, returned)
  resume_phase options is_done (opening_length fin (ok len)) t =
      decode_payload aead fin len (record t { expected_payload_len = some len })
  resume_phase options is_done (opening_payload fin (err e)) t = (cleanup decrypt_error t, returned)
  resume_phase options is_done (opening_payload fin (ok plain)) t = deliver fin plain t
  resume_phase options true (writing fin) t = decode_frames aead fin (reset_idle_timer none t)
  resume_phase options false (writing fin) t = (cleanup client_write_error t, returned)
  resume_phase options is_done closing t = after_close t

  unfoldable pub resume_rx : Options → Bool → Tunnel K → Tunnel K
  resume_rx options is_done t = settle (resume_phase options is_done t.phase t)
