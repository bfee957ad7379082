-- ===== src/Tunnel/Decode.antt =====
-- Inside `processRxQueue`: one entry of the queue, up to the next `await`, `continue` or `return`.
use iwa_brook_quic.Base.{
  ℕ, ◌+◌, ◌-◌, ltb, ◌==◌, if◌then◌else◌, Bool, true, false, not, ◌&&◌, ◌||◌, Option, none, some,
  List, [], ◌∷◌, ◌++◌, length, take, drop,
}
use iwa_brook_quic.Nonce.{next_nonce}
use iwa_brook_quic.Framing.{Aead, FrameError, Result, err, open_length, open_payload}
use iwa_brook_quic.Tunnel.State.{
  Tunnel, Item, Promise, idle, deriving_key, opening_length, opening_payload, closing, pending,
  resolved, rejected, transport_closed, framing_error, target_dial_refused,
}
use iwa_brook_quic.Tunnel.Cleanup.{reset_idle_timer, cleanup, check_full_close, has_partial_frame}

-- How a stretch of `processRxQueue` ends: at an `await`, at the head of the queue loop, or by
-- `return`.
pub data Next : Type 0 where
  suspended continued returned : Next

-- `slice` off what is consumed.
abbrev pub trimmed : {K : Type 0} → Tunnel K → Tunnel K
trimmed t = record t { rx_buffer = drop t.rx_offset t.rx_buffer; rx_offset = 0 }

abbrev pub is_empty : {A : Type 0} → List A → Bool
is_empty [] = true
is_empty (x ∷ xs) = false

abbrev pub resolve_handshake : Promise → Promise
resolve_handshake pending = resolved
resolve_handshake resolved = resolved
resolve_handshake rejected = rejected

module _ {K : Type 0} where
  abbrev pub unread : Tunnel K → ℕ
  unread t = length t.rx_buffer - t.rx_offset

  -- `item` is shifted off the queue, and its bytes are no longer counted as queued.
  abbrev pub shift_item : Item → List Item → Tunnel K → Tunnel K
  shift_item item queue t = record t {
    rx_queue = queue;
    rx_queued_bytes = t.rx_queued_bytes - length item.chunk;
    metrics_rx_queued = t.metrics_rx_queued - length item.chunk;
  }

  -- The chunk behind what is left of the buffer.
  abbrev pub append_chunk : List ℕ → Tunnel K → Tunnel K
  append_chunk chunk t = record t {
    rx_buffer = drop t.rx_offset t.rx_buffer ++ chunk;
    rx_offset = 0;
  }

  -- The client may go on reading for ten seconds.
  unfoldable pub half_close : Tunnel K → Tunnel K
  half_close t =
      if t.server_fin_received && not t.client_read_closed && not t.is_terminated
      then reset_idle_timer (some 10000) t
      else t

  -- What follows `clientWriter.close()` after a FIN.
  unfoldable pub after_close : Tunnel K → Tunnel K × Next
  after_close t =
      if has_partial_frame t
      then (cleanup framing_error t, returned)
      else if not t.server_handshake_done && t.total_bytes_recv == 0
      then (cleanup target_dial_refused t, returned)
      else (half_close (check_full_close t), returned)

  -- The end of the round: the `fin` of the entry, or the next round.
  unfoldable pub end_of_item : Bool → Tunnel K → Tunnel K × Next
  end_of_item false t = (t, continued)
  end_of_item true t =
      let t' = record t { server_fin_received = true } in
      if t.client_write_closed
      then after_close t'
      else (record t' { client_write_closed = true; phase = closing }, suspended)

  -- After the inner loop: trim the buffer, then the end of the round.
  unfoldable pub leave_frames : Bool → Tunnel K → Tunnel K × Next
  leave_frames fin t = end_of_item fin (trimmed t)

  -- The `finally` block.
  unfoldable pub finish_rx : Tunnel K → Tunnel K
  finish_rx t =
      let t' = record t { is_processing_rx = false; phase = idle } in
      if not (is_empty t.rx_queue) && not t.is_terminated
      then record t' { rx_scheduled = true }
      else if t.transport_closed && not t.is_terminated && not t.server_fin_received
      then cleanup transport_closed t'
      else t'

  -- Behind `sendSuccess`: the handshake is settled.
  unfoldable pub settle_handshake : Tunnel K → Tunnel K
  settle_handshake t = record t { handshake = resolve_handshake t.handshake }

module _ {K : Type 0} (aead : Aead K) where
  -- `openLength` and `openPayload` under `serverCipher`; a null cipher rejects.
  abbrev pub cipher_open_length : Option K → List ℕ → List ℕ → List ℕ × Result ℕ
  cipher_open_length none nonce chunk18 = (next_nonce nonce, err FrameError.rejected)
  cipher_open_length (some key) nonce chunk18 = open_length aead key nonce chunk18

  abbrev pub cipher_open_payload : Option K → List ℕ → List ℕ → List ℕ × Result (List ℕ)
  cipher_open_payload none nonce payload_and_tag = (next_nonce nonce, err FrameError.rejected)
  cipher_open_payload (some key) nonce payload_and_tag = open_payload aead key nonce payload_and_tag

  -- Part 2 of the inner loop.
  unfoldable pub decode_payload : Bool → ℕ → Tunnel K → Tunnel K × Next
  decode_payload fin len t =
      let required_bytes = len + 16 in
      let payload_and_tag = take required_bytes (drop t.rx_offset t.rx_buffer) in
      let (sn', payload) = cipher_open_payload t.server_cipher t.sn payload_and_tag in
      if ltb (unread t) required_bytes then leave_frames fin t else (
        record t {
          sn = sn';
          rx_offset = t.rx_offset + required_bytes;
          phase = opening_payload fin payload;
        },
        suspended,
      )

  -- Part 1.
  unfoldable pub decode_length : Bool → Tunnel K → Tunnel K × Next
  decode_length fin t =
      let chunk18 = take 18 (drop t.rx_offset t.rx_buffer) in
      let (sn', len) = cipher_open_length t.server_cipher t.sn chunk18 in
      if ltb (unread t) 18 then leave_frames fin t else (
        record t { sn = sn'; rx_offset = t.rx_offset + 18; phase = opening_length fin len },
        suspended,
      )

  unfoldable pub decode_expected : Option ℕ → Bool → Tunnel K → Tunnel K × Next
  decode_expected none fin t = decode_length fin t
  decode_expected (some len) fin t = decode_payload fin len t

  -- Step B, from the head of its loop.
  unfoldable pub decode_frames : Bool → Tunnel K → Tunnel K × Next
  decode_frames fin t =
      if not t.server_handshake_done || t.is_terminated
      then leave_frames fin t
      else decode_expected t.expected_payload_len fin t

module _ {K : Type 0} (aead : Aead K) (derive : List ℕ → Option K) where
  -- One entry of the queue, already shifted off it. Below 12 bytes `continue` skips the `fin`.
  unfoldable pub take_item : Item → Tunnel K → Tunnel K × Next
  take_item item t =
      let t' = append_chunk item.chunk t in
      let nonce = take 12 t'.rx_buffer in
      if length item.chunk == 0
      then end_of_item item.fin t
      else if t.server_handshake_done
      then decode_frames aead item.fin t'
      else if ltb (length t'.rx_buffer) 12
      then (t', continued)
      else (
        record t' { sn = nonce; rx_offset = 12; phase = deriving_key item.fin (derive nonce) },
        suspended,
      )
