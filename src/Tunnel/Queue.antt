-- ===== src/Tunnel/Queue.antt =====
-- Accounting of the receive queue: the tunnel's own counter, its bound, and its share of the counter
-- that all tunnels add to.
use iwa_brook_quic.Base.{
  ℕ, ◌∙◌, ◌+◌, ◌≤◌, ◌≡◌, ap, refl, Bool, true, false, Option, none, some, List, [], ◌∷◌, length,
  arith,
}
use iwa_brook_quic.Framing.{Aead}
use iwa_brook_quic.Tunnel.State.{
  Tunnel, Item, Reason, max_rx_buffer_bytes, transport_closed, idle, client_abort, framing_error,
  target_dial_refused, both_closed,
}
use iwa_brook_quic.Tunnel.Cleanup.{reset_idle_timer, cleanup, check_full_close}
use iwa_brook_quic.Tunnel.Decode.{
  Next, suspended, continued, returned, shift_item, after_close, end_of_item, leave_frames,
  finish_rx, half_close, decode_expected, trimmed, append_chunk, decode_payload, decode_length,
  decode_frames, take_item,
}
use iwa_brook_quic.Tunnel.Loop.{After, run_queue_rule}
use iwa_brook_quic.Tunnel.Rx.{run_queue, settle, process_rx_queue}

abbrev pub queue_bytes : List Item → ℕ
queue_bytes [] = 0
queue_bytes (item ∷ queue) = length item.chunk + queue_bytes queue

-- `others` is what the other tunnels have queued.
pub record Balanced (others : ℕ) (is_terminated : Bool) (queued shared : ℕ) (queue : List Item)
    : Type 0 where
  pub counted : is_terminated ≡ false → queued ≡ queue_bytes queue
  pub ended : is_terminated ≡ true → queued ≡ 0
  pub bounded : queued ≤ max_rx_buffer_bytes
  pub balance : shared ≡ others + queued

module _ {K : Type 0} (others : ℕ) where
  abbrev pub Accounts : Tunnel K → Type 0
  Accounts t = Balanced others t.is_terminated t.rx_queued_bytes t.metrics_rx_queued t.rx_queue

  -- A stretch that leaves the queue alone and keeps the accounts.
  abbrev pub Sound : Tunnel K → Tunnel K → Type 0
  Sound t t' = Accounts t' × (t'.rx_queue ≡ t.rx_queue)

  pub cleanup-Sound : (reason : Reason) (t : Tunnel K) → Accounts t → Sound t (cleanup reason t)
  unfolding cleanup
  cleanup-Sound reason t v = ground arith

  pub check_full_close-Sound : (t : Tunnel K) → Accounts t → Sound t (check_full_close t)
  unfolding check_full_close
  check_full_close-Sound t v = ground (
    arith,
    cleanup-Sound client_abort t v,
    cleanup-Sound framing_error t v,
    cleanup-Sound target_dial_refused t v,
    cleanup-Sound both_closed t v,
  )

  pub reset-Sound : (d : Option ℕ) (t : Tunnel K) → Accounts t → Sound t (reset_idle_timer d t)
  unfolding reset_idle_timer
  reset-Sound d t v = (v, refl)

  half_close-Sound : (t : Tunnel K) → Accounts t → Sound t (half_close t)
  unfolding half_close
  half_close-Sound t v = ground (arith, reset-Sound (some 10000) t v)

  pub after_close-Sound : (t : Tunnel K) → Accounts t → Sound t (after_close t).0
  unfolding after_close
  after_close-Sound t v =
      let full = check_full_close-Sound t v in
      ground (
        arith,
        cleanup-Sound framing_error t v,
        cleanup-Sound target_dial_refused t v,
        full,
        half_close-Sound (check_full_close t) full.0,
      )

  end_of_item-Sound : (fin : Bool) (t : Tunnel K) → Accounts t → Sound t (end_of_item fin t).0
  unfolding end_of_item
  end_of_item-Sound false t v = (v, refl)
  end_of_item-Sound true t v =
      ground (arith, after_close-Sound (record t { server_fin_received = true }) v)

  leave_frames-Sound : (fin : Bool) (t : Tunnel K) → Accounts t → Sound t (leave_frames fin t).0
  unfolding leave_frames
  leave_frames-Sound fin t v = end_of_item-Sound fin (trimmed t) v

  finish_rx-Accounts : (t : Tunnel K) → Accounts t → Accounts (finish_rx t)
  unfolding finish_rx
  finish_rx-Accounts t v =
      let t' = record t { is_processing_rx = false; phase = idle } in
      ground (arith, cleanup-Sound transport_closed t' v)

  -- The loop's head, with the queue that it is about to go through.
  abbrev Head : List Item → Tunnel K → Type 0
  Head queue t = (t.rx_queue ≡ queue) × Accounts t

  Sound-After :
      (queue : List Item) (p : Tunnel K × Next)
      → p.0.rx_queue ≡ queue
      → Accounts p.0
      → After Head Accounts queue p
  Sound-After queue (t, suspended) e w = w
  Sound-After queue (t, continued) e w = (e, w)
  Sound-After queue (t, returned) e w = finish_rx-Accounts t w

  module _ (aead : Aead K) where
    pub decode_payload-Sound :
        (fin : Bool) (len : ℕ) (t : Tunnel K)
        → Accounts t
        → Sound t (decode_payload aead fin len t).0
    unfolding decode_payload
    decode_payload-Sound fin len t v = ground (arith, leave_frames-Sound fin t v)

    decode_length-Sound :
        (fin : Bool) (t : Tunnel K) → Accounts t → Sound t (decode_length aead fin t).0
    unfolding decode_length
    decode_length-Sound fin t v = ground (arith, leave_frames-Sound fin t v)

    decode_expected-Sound :
        (expected : Option ℕ) (fin : Bool) (t : Tunnel K)
        → Accounts t
        → Sound t (decode_expected aead expected fin t).0
    unfolding decode_expected
    decode_expected-Sound none fin t v = decode_length-Sound fin t v
    decode_expected-Sound (some len) fin t v = decode_payload-Sound fin len t v

    pub decode_frames-Sound :
        (fin : Bool) (t : Tunnel K) → Accounts t → Sound t (decode_frames aead fin t).0
    unfolding decode_frames
    decode_frames-Sound fin t v =
        ground
          (arith, leave_frames-Sound fin t v, decode_expected-Sound t.expected_payload_len fin t v)

  module _ (aead : Aead K) (derive : List ℕ → Option K) where
    take_item-Sound :
        (item : Item) (t : Tunnel K) → Accounts t → Sound t (take_item aead derive item t).0
    unfolding take_item
    take_item-Sound item t v = ground (
      arith,
      end_of_item-Sound item.fin t v,
      decode_frames-Sound aead item.fin (append_chunk item.chunk t) v,
    )

    shift_item-Accounts :
        (item : Item) (queue : List Item) (t : Tunnel K)
        → t.rx_queue ≡ item ∷ queue
        → t.is_terminated ≡ false
        → Accounts t
        → Accounts (shift_item item queue t)
    shift_item-Accounts item queue t e running v =
        let total : t.rx_queued_bytes ≡ length item.chunk + queue_bytes queue =
          v.counted running ∙ ap queue_bytes e in
        ground (arith, total)

    take_item-After :
        (item : Item) (queue : List Item) (t : Tunnel K)
        → t.is_terminated ≡ false
        → Head (item ∷ queue) t
        → After Head Accounts queue (take_item aead derive item (shift_item item queue t))
    take_item-After item queue t running (e, v) =
        let (w, same) =
          take_item-Sound item (shift_item item queue t)
            (shift_item-Accounts item queue t e running v) in
        Sound-After queue _ same w

    run_queue-Accounts :
        (queue : List Item) (t : Tunnel K) → Head queue t → Accounts (run_queue aead derive queue t)
    run_queue-Accounts =
        run_queue_rule aead derive Head Accounts (λ queue t h. finish_rx-Accounts t h.1)
          take_item-After

    pub settle-Accounts :
        (t : Tunnel K) (p : Tunnel K × Next) → Sound t p.0 → Accounts (settle aead derive p)
    unfolding settle
    settle-Accounts t (t', suspended) (w, same) = w
    settle-Accounts t (t', continued) (w, same) = run_queue-Accounts t'.rx_queue t' (refl, w)
    settle-Accounts t (t', returned) (w, same) = finish_rx-Accounts t' w

    pub process_rx_queue-Accounts :
        (t : Tunnel K) → Accounts t → Accounts (process_rx_queue aead derive t)
    unfolding process_rx_queue
    process_rx_queue-Accounts t v =
        ground
          (arith, run_queue-Accounts t.rx_queue (record t { is_processing_rx = true }) (refl, v))
