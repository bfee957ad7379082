-- ===== src/Tunnel/Stream.antt =====
-- Every stretch of `processRxQueue` keeps the variables in step with the decoder.
use iwa_brook_quic.Base.{
  ℕ, ◌+◌, ◌≤◌, ◌<◌, ◌≡◌, refl, sym, subst, ltb, ltb→lt, ◌==◌, either_way, Bool, true, false, not,
  ◌&&◌, ◌||◌, Option, none, some, List, [], ◌++◌, length, drop, arith, append-nil, length-drop,
  drop-drop,
}
use iwa_brook_quic.Framing.{Aead}
use iwa_brook_quic.Tunnel.State.{
  Tunnel, Phase, Reason, idle, deriving_key, sending_success, opening_length, opening_payload,
  writing, closing, client_abort, framing_error, target_dial_refused, both_closed, transport_closed,
}
use iwa_brook_quic.Tunnel.Cleanup.{
  reset_idle_timer, cleanup, ended_by, check_full_close, has_partial_frame,
}
use iwa_brook_quic.Tunnel.Decode.{
  Next, suspended, continued, returned, half_close, after_close, end_of_item, leave_frames, trimmed,
  finish_rx, decode_payload, decode_length, decode_expected, decode_frames, is_empty, unread,
}
use iwa_brook_quic.Tunnel.Decoder.{Decoder, with_key, output, IsStuck}
use iwa_brook_quic.Tunnel.Tracking.{
  decoder_of_expected, length-IsStuck, payload-IsStuck, queue_chunks, decoder_of, opened_length,
  opened_payload, HasKey, Reads, read_length, read_payload,
}

module _ {K : Type 0} where
  abbrev pub view : Tunnel K → Decoder K
  view t = decoder_of t.server_handshake_done t.server_cipher t.sn t.expected_payload_len

  abbrev pub unseen : Tunnel K → List ℕ
  unseen t = drop t.rx_offset t.rx_buffer

  abbrev pub pending_bytes : Tunnel K → List ℕ
  pending_bytes t = unseen t ++ queue_chunks t.rx_queue

module _ {K : Type 0} (aead : Aead K) (derive : List ℕ → Option K) (seen : List ℕ) where
  abbrev pub Keyed : Tunnel K → Type 0
  Keyed t =
      (t.server_handshake_done ≡ true → HasKey t.server_cipher)
      × (t.server_handshake_done ≡ false → t.expected_payload_len ≡ none)

  -- The receive loop is at work, and what it wrote is what the decoder wrote.
  abbrev pub Tracks : Tunnel K → Type 0
  Tracks t =
      Reads aead derive seen t.written (view t) (pending_bytes t)
      × Keyed t
      × (t.is_processing_rx ≡ true)

  -- Besides, unless the tunnel has ended, the buffer holds too little to go on.
  abbrev pub Settled : Tunnel K → Type 0
  Settled t = Tracks t × (t.is_terminated ≡ false → IsStuck (view t) (unseen t))

  -- What was written is the beginning of what the decoder writes.
  abbrev pub Prefix : List ℕ → Type 0
  Prefix written =
      (more : List ℕ) × (d : Decoder K) × (rest : List ℕ) × Reads aead derive seen (written ++ more)
        d rest

  -- Between two rounds of work.
  abbrev pub Idle : Tunnel K → Type 0
  Idle t =
      Prefix t.written
      × (t.is_terminated ≡ false
          → Reads aead derive seen t.written (view t) (pending_bytes t)
            × Keyed t
            × IsStuck (view t) (unseen t))

  abbrev pub InPhase : Phase K → Tunnel K → Type 0
  InPhase idle t = Idle t
  InPhase (deriving_key fin key) t =
      (t.server_handshake_done ≡ false)
      × (t.expected_payload_len ≡ none)
      × (t.is_processing_rx ≡ true)
      × Reads aead derive seen t.written (with_key key t.sn) (pending_bytes t)
  InPhase (sending_success fin) t = Tracks t × (t.server_handshake_done ≡ true)
  InPhase (opening_length fin r) t =
      (t.server_handshake_done ≡ true)
      × HasKey t.server_cipher
      × (t.is_processing_rx ≡ true)
      × Reads aead derive seen t.written (opened_length t.server_cipher t.sn r) (pending_bytes t)
  InPhase (opening_payload fin r) t =
      (t.server_handshake_done ≡ true)
      × HasKey t.server_cipher
      × (t.is_processing_rx ≡ true)
      × Reads aead derive seen (t.written ++ output r) (opened_payload t.server_cipher t.sn r)
          (pending_bytes t)
  InPhase (writing fin) t = Tracks t × (t.server_handshake_done ≡ true)
  InPhase closing t = Settled t

  abbrev pub Inv : Tunnel K → Type 0
  Inv t = InPhase t.phase t

  abbrev pub Post : Tunnel K × Next → Type 0
  Post (t, suspended) = Inv t
  Post (t, continued) = Settled t
  Post (t, returned) = Idle t

  pub Reads-Prefix :
      {d : Decoder K} {rest : List ℕ} (written : List ℕ)
      → Reads aead derive seen written d rest
      → Prefix written
  Reads-Prefix {d} {rest} written r = ([], d, rest, rw append-nil r)

  pub Settled-Idle : (t : Tunnel K) → Settled t → Idle t
  Settled-Idle t (tracks, stuck) =
      (Reads-Prefix t.written tracks.0, λ running. (tracks.0, tracks.1, stuck running))

  pub cleanup-Idle : (reason : Reason) (t : Tunnel K) → Prefix t.written → Idle (cleanup reason t)
  unfolding cleanup
  cleanup-Idle reason t p =
      either_way Idle t.is_terminated t (ended_by reason t) (λ over. (p, λ running. cc))
        (λ _. (p, λ running. cc))

  cleanup-Settled : (reason : Reason) (t : Tunnel K) → Settled t → Settled (cleanup reason t)
  unfolding cleanup
  cleanup-Settled reason t s =
      either_way Settled t.is_terminated t (ended_by reason t) (λ _. s) (λ _. (s.0, λ running. cc))

  check_full_close-Settled : (t : Tunnel K) → Settled t → Settled (check_full_close t)
  unfolding check_full_close
  check_full_close-Settled t s =
      let close = λ (reason : Reason) (b : Bool) (more : Tunnel K) (h : Settled more).
        either_way Settled b (cleanup reason t) more (λ _. cleanup-Settled reason t s) (λ _. h) in
      either_way Settled (not (t.client_read_closed && t.server_fin_received)) t _ (λ _. s)
        (λ _. close client_abort (not t.server_handshake_done) _ (
          close framing_error (has_partial_frame t) _ (
            close target_dial_refused (t.total_bytes_recv == 0) (cleanup both_closed t)
              (cleanup-Settled both_closed t s))))

  half_close-Settled : (t : Tunnel K) → Settled t → Settled (half_close t)
  unfolding half_close reset_idle_timer
  half_close-Settled t s =
      either_way Settled (t.server_fin_received && not t.client_read_closed && not t.is_terminated)
        (reset_idle_timer (some 10000) t) t (λ _. s) (λ _. s)

  pub after_close-Post : (t : Tunnel K) → Settled t → Post (after_close t)
  unfolding after_close
  after_close-Post t s =
      let p = Reads-Prefix t.written s.0.0 in
      either_way Post (has_partial_frame t) (cleanup framing_error t, returned) _
        (λ _. cleanup-Idle framing_error t p)
        (λ _.
          either_way Post (not t.server_handshake_done && t.total_bytes_recv == 0)
            (cleanup target_dial_refused t, returned) (half_close (check_full_close t), returned)
            (λ _. cleanup-Idle target_dial_refused t p)
            (λ _.
              Settled-Idle (half_close (check_full_close t))
                (half_close-Settled (check_full_close t) (check_full_close-Settled t s))))

  pub end_of_item-Post : (fin : Bool) (t : Tunnel K) → Settled t → Post (end_of_item fin t)
  unfolding end_of_item
  end_of_item-Post false t s = s
  end_of_item-Post true t s =
      let t' = record t { server_fin_received = true } in
      either_way Post t.client_write_closed (after_close t')
        (record t' { client_write_closed = true; phase = closing }, suspended)
        (λ _. after_close-Post t' s) (λ _. s)

  leave_frames-Post : (fin : Bool) (t : Tunnel K) → Settled t → Post (leave_frames fin t)
  unfolding leave_frames
  leave_frames-Post fin t s = end_of_item-Post fin (trimmed t) s

  cleanup_idle-Inv :
      (reason : Reason) (t : Tunnel K)
      → Idle t
      → Inv (cleanup reason (record t { is_processing_rx = false; phase = idle }))
  unfolding cleanup
  cleanup_idle-Inv reason t h =
      let t' = record t { is_processing_rx = false; phase = idle } in
      either_way Inv t.is_terminated t' (ended_by reason t') (λ _. h) (λ _. (h.0, λ running. cc))

  pub finish_rx-Inv : (t : Tunnel K) → Idle t → Inv (finish_rx t)
  unfolding finish_rx
  finish_rx-Inv t h =
      let t' = record t { is_processing_rx = false; phase = idle } in
      either_way Inv (not (is_empty t.rx_queue) && not t.is_terminated)
        (record t' { rx_scheduled = true }) _ (λ _. h)
        (λ _.
          either_way Inv (t.transport_closed && not t.is_terminated && not t.server_fin_received)
            (cleanup transport_closed t') t' (λ _. cleanup_idle-Inv transport_closed t h) (λ _. h))

  short_of : (t : Tunnel K) (n : ℕ) → ltb (unread t) n ≡ true → length (unseen t) < n
  short_of t n e = omega (arith, ltb→lt _ _ e, length-drop t.rx_offset t.rx_buffer)

  enough_of : (t : Tunnel K) (n : ℕ) → ltb (unread t) n ≡ false → n ≤ length (unseen t)
  enough_of t n e = ground (arith, length-drop t.rx_offset t.rx_buffer)

  -- The tunnel's decoder where the expected length is known.
  view_at :
      (t : Tunnel K) (expected : Option ℕ)
      → t.server_handshake_done ≡ true
      → t.expected_payload_len ≡ expected
      → view t ≡ decoder_of true t.server_cipher t.sn expected
  view_at t expected =
      decoder_of_expected t.server_handshake_done t.server_cipher t.sn t.expected_payload_len
        expected

  decode_length-Post :
      (fin : Bool) (t : Tunnel K)
      → t.server_handshake_done ≡ true
      → t.expected_payload_len ≡ none
      → Tracks t
      → Post (decode_length aead fin t)
  unfolding decode_length
  decode_length-Post fin t done waits (r, k, running) =
      let at = view_at t none done waits in
      let now = subst (λ d. Reads aead derive seen t.written d (pending_bytes t)) at r in
      either_way Post (ltb (unread t) 18) (leave_frames fin t) _
        (λ short. leave_frames-Post fin t (
          (r, k, running),
          λ _.
              subst (λ d. IsStuck d (unseen t)) (sym at)
                (length-IsStuck t.server_cipher t.sn (unseen t) (short_of t 18 short)),
        ))
        (λ enough. (
          done,
          k.0 done,
          running,
          rw (← drop-drop t.rx_offset 18 t.rx_buffer) (
              read_length aead derive seen t.server_cipher t.sn t.written (unseen t)
                (queue_chunks t.rx_queue) (k.0 done) now (enough_of t 18 enough)),
        ))

  pub decode_payload-Post :
      (fin : Bool) (len : ℕ) (t : Tunnel K)
      → t.server_handshake_done ≡ true
      → t.expected_payload_len ≡ some len
      → Tracks t
      → Post (decode_payload aead fin len t)
  unfolding decode_payload
  decode_payload-Post fin len t done waits (r, k, running) =
      let at = view_at t (some len) done waits in
      let now = subst (λ d. Reads aead derive seen t.written d (pending_bytes t)) at r in
      either_way Post (ltb (unread t) (len + 16)) (leave_frames fin t) _
        (λ short. leave_frames-Post fin t (
          (r, k, running),
          λ _.
              subst (λ d. IsStuck d (unseen t)) (sym at)
                (payload-IsStuck t.server_cipher t.sn len (unseen t) (short_of t (len + 16) short)),
        ))
        (λ enough. (
          done,
          k.0 done,
          running,
          rw (← drop-drop t.rx_offset (len + 16) t.rx_buffer) (
              read_payload aead derive seen t.server_cipher t.sn len t.written (unseen t)
                (queue_chunks t.rx_queue) (k.0 done) now (enough_of t (len + 16) enough)),
        ))

  decode_expected-Post :
      (expected : Option ℕ) (fin : Bool) (t : Tunnel K)
      → t.server_handshake_done ≡ true
      → t.expected_payload_len ≡ expected
      → Tracks t
      → Post (decode_expected aead expected fin t)
  unfolding decode_expected
  decode_expected-Post none fin t done e h = decode_length-Post fin t done e h
  decode_expected-Post (some len) fin t done e h = decode_payload-Post fin len t done e h

  pub decode_frames-Post :
      (fin : Bool) (t : Tunnel K)
      → t.server_handshake_done ≡ true
      → Tracks t
      → Post (decode_frames aead fin t)
  unfolding decode_frames
  decode_frames-Post fin t done h =
      either_way Post (not t.server_handshake_done || t.is_terminated) (leave_frames fin t)
        (decode_expected aead t.expected_payload_len fin t)
        (λ over. leave_frames-Post fin t (h, λ running. absurd (ground arith)))
        (λ _. decode_expected-Post t.expected_payload_len fin t done refl h)
