-- ===== src/Tunnel/Kept.antt =====
-- No stretch of `processRxQueue` within a round touches the queue.
use iwa_brook_quic.Base.{ℕ, ◌≡◌, refl, Bool, true, false, Option, none, some, List, arith}
use iwa_brook_quic.Framing.{Aead}
use iwa_brook_quic.Tunnel.State.{
  Tunnel, Item, Reason, client_abort, framing_error, target_dial_refused, both_closed,
}
use iwa_brook_quic.Tunnel.Cleanup.{reset_idle_timer, cleanup, check_full_close}
use iwa_brook_quic.Tunnel.Decode.{
  half_close, after_close, end_of_item, leave_frames, decode_payload, decode_length,
  decode_expected, decode_frames, take_item, append_chunk, trimmed,
}

module _ {K : Type 0} where
  cleanup-rx_queue : (reason : Reason) (t : Tunnel K) → (cleanup reason t).rx_queue ≡ t.rx_queue
  unfolding cleanup
  cleanup-rx_queue reason t = ground arith

  check_full_close-rx_queue : (t : Tunnel K) → (check_full_close t).rx_queue ≡ t.rx_queue
  unfolding check_full_close
  check_full_close-rx_queue t = ground (
    arith,
    cleanup-rx_queue client_abort t,
    cleanup-rx_queue framing_error t,
    cleanup-rx_queue target_dial_refused t,
    cleanup-rx_queue both_closed t,
  )

  half_close-rx_queue : (t : Tunnel K) → (half_close t).rx_queue ≡ t.rx_queue
  unfolding half_close reset_idle_timer
  half_close-rx_queue t = ground arith

  after_close-rx_queue : (t : Tunnel K) → (after_close t).0.rx_queue ≡ t.rx_queue
  unfolding after_close
  after_close-rx_queue t = ground (
    arith,
    cleanup-rx_queue framing_error t,
    cleanup-rx_queue target_dial_refused t,
    check_full_close-rx_queue t,
    half_close-rx_queue (check_full_close t),
  )

  end_of_item-rx_queue : (fin : Bool) (t : Tunnel K) → (end_of_item fin t).0.rx_queue ≡ t.rx_queue
  unfolding end_of_item
  end_of_item-rx_queue false t = refl
  end_of_item-rx_queue true t =
      ground (arith, after_close-rx_queue (record t { server_fin_received = true }))

  leave_frames-rx_queue : (fin : Bool) (t : Tunnel K) → (leave_frames fin t).0.rx_queue ≡ t.rx_queue
  unfolding leave_frames
  leave_frames-rx_queue fin t = end_of_item-rx_queue fin (trimmed t)

module _ {K : Type 0} (aead : Aead K) where
  decode_expected-rx_queue :
      (expected : Option ℕ) (fin : Bool) (t : Tunnel K)
      → (decode_expected aead expected fin t).0.rx_queue ≡ t.rx_queue
  unfolding decode_expected decode_length decode_payload
  decode_expected-rx_queue none fin t = ground (arith, leave_frames-rx_queue fin t)
  decode_expected-rx_queue (some len) fin t = ground (arith, leave_frames-rx_queue fin t)

  decode_frames-rx_queue :
      (fin : Bool) (t : Tunnel K) → (decode_frames aead fin t).0.rx_queue ≡ t.rx_queue
  unfolding decode_frames
  decode_frames-rx_queue fin t =
      ground
        (arith, leave_frames-rx_queue fin t, decode_expected-rx_queue t.expected_payload_len fin t)

  pub take_item-rx_queue :
      (derive : List ℕ → Option K) (item : Item) (t : Tunnel K)
      → (take_item aead derive item t).0.rx_queue ≡ t.rx_queue
  unfolding take_item
  take_item-rx_queue derive item t = ground (
    arith,
    end_of_item-rx_queue item.fin t,
    decode_frames-rx_queue item.fin (append_chunk item.chunk t),
  )
