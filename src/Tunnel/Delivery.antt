-- ===== src/Tunnel/Delivery.antt =====
-- From one turn of the event loop to the next: what the client is sent is what the decoder writes.
use iwa_brook_quic.Base.{
  ℕ, ◌≡◌, refl, ap, subst, ltb, ltb→lt, ◌==◌, either_way, true, false, ◌||◌, Option, List, [], ◌∷◌,
  ◌++◌, length, arith, append_assoc,
}
use iwa_brook_quic.Framing.{Aead}
use iwa_brook_quic.Tunnel.State.{
  Tunnel, Item, Phase, idle, deriving_key, sending_success, opening_length, opening_payload,
  writing, closing,
}
use iwa_brook_quic.Tunnel.Decode.{
  Next, suspended, continued, returned, shift_item, append_chunk, end_of_item, take_item,
  decode_frames,
}
use iwa_brook_quic.Tunnel.Rx.{run_queue, settle, process_rx_queue}
use iwa_brook_quic.Tunnel.Loop.{After, run_queue_rule}
use iwa_brook_quic.Tunnel.Kept.{take_item-rx_queue}
use iwa_brook_quic.Tunnel.Tracking.{queue_chunks, decoder_of, Reads, read_nonce, nonce-IsStuck}
use iwa_brook_quic.Tunnel.Decoder.{output}
use iwa_brook_quic.Tunnel.Stream.{
  Settled-Idle, view, unseen, pending_bytes, Tracks, Settled, Idle, InPhase, Inv, Post, Prefix,
  Reads-Prefix, end_of_item-Post, finish_rx-Inv, decode_frames-Post,
}

empty_chunk : (xs : List ℕ) → (length xs == 0) ≡ true → xs ≡ []
empty_chunk [] e = refl
empty_chunk (x ∷ xs) e = ground arith

module _ {K : Type 0} (aead : Aead K) (derive : List ℕ → Option K) (seen : List ℕ) where
  -- The head of the queue loop: settled, with the queue that it goes through.
  abbrev Head : List Item → Tunnel K → Type 0
  Head queue t = (t.rx_queue ≡ queue) × Settled aead derive seen t

  -- A chunk joined to the buffer is no longer in the queue.
  join_chunk :
      (item : Item) (queue : List Item) (t : Tunnel K)
      → t.rx_queue ≡ item ∷ queue
      → Tracks aead derive seen t
      → Tracks aead derive seen (append_chunk item.chunk (shift_item item queue t))
  join_chunk item queue t e (r, k, running) = (
    rw (append_assoc (unseen t) item.chunk (queue_chunks queue))
        (subst (λ q. Reads aead derive seen t.written (view t) (unseen t ++ queue_chunks q)) e r),
    k,
    running,
  )

  take_item-Post :
      (item : Item) (queue : List Item) (t : Tunnel K)
      → Head (item ∷ queue) t
      → Post aead derive seen (take_item aead derive item (shift_item item queue t))
  unfolding take_item
  take_item-Post item queue t (e, s) =
      let shifted = shift_item item queue t in
      let t' = append_chunk item.chunk shifted in
      let joined = join_chunk item queue t e s.0 in
      either_way (Post aead derive seen) (length item.chunk == 0) (end_of_item item.fin shifted) _
        (λ empty. end_of_item-Post aead derive seen item.fin shifted (unjoined empty, s.1))
        (λ _.
          either_way (Post aead derive seen) t.server_handshake_done
            (decode_frames aead item.fin t') _
            (λ done. decode_frames-Post aead derive seen item.fin t' done joined)
            (λ fresh.
              either_way (Post aead derive seen) (ltb (length t'.rx_buffer) 12) (t', continued) _
                (λ short. (
                  joined,
                  λ _.
                      nonce-IsStuck t.server_handshake_done t.server_cipher t.sn
                        t.expected_payload_len t'.rx_buffer fresh (ltb→lt _ _ short),
                ))
                (λ enough. (
                  fresh,
                  s.0.1.1 fresh,
                  s.0.2,
                  read_nonce aead derive seen t.written t'.rx_buffer (queue_chunks queue)
                      (subst (λ d. Reads aead derive seen t.written d (pending_bytes t'))
                        (ap (λ b. decoder_of b t.server_cipher t.sn t.expected_payload_len) fresh)
                        joined.0)
                      (ground arith),
                ))))
    where
      unjoined : (length item.chunk == 0) ≡ true → Tracks aead derive seen (shift_item item queue t)
      unjoined empty = (
        subst
            (λ xs.
              Reads aead derive seen t.written (view t) (unseen t ++ (xs ++ queue_chunks queue)))
            (empty_chunk item.chunk empty)
            (subst (λ q. Reads aead derive seen t.written (view t) (unseen t ++ queue_chunks q)) e
              s.0.0),
        s.0.1,
        s.0.2,
      )

  Post-After :
      (queue : List Item) (p : Tunnel K × Next)
      → p.0.rx_queue ≡ queue
      → Post aead derive seen p
      → After Head (Inv aead derive seen) queue p
  Post-After queue (t, suspended) e h = h
  Post-After queue (t, continued) e h = (e, h)
  Post-After queue (t, returned) e h = finish_rx-Inv aead derive seen t h

  run_queue-Inv :
      (queue : List Item) (t : Tunnel K)
      → Head queue t
      → Inv aead derive seen (run_queue aead derive queue t)
  run_queue-Inv =
      run_queue_rule aead derive Head (Inv aead derive seen)
        (λ queue t h. finish_rx-Inv aead derive seen t (Settled-Idle aead derive seen t h.1))
        (λ item queue t running h.
          Post-After queue (take_item aead derive item (shift_item item queue t))
            (take_item-rx_queue aead derive item (shift_item item queue t))
            (take_item-Post item queue t h))

  pub settle-Inv :
      (p : Tunnel K × Next) → Post aead derive seen p → Inv aead derive seen (settle aead derive p)
  unfolding settle
  settle-Inv (t, suspended) h = h
  settle-Inv (t, continued) h = run_queue-Inv t.rx_queue t (refl, h)
  settle-Inv (t, returned) h = finish_rx-Inv aead derive seen t h

  -- Between rounds of work the loop is suspended nowhere.
  InPhase-Idle :
      (phase : Phase K) (t : Tunnel K)
      → t.is_processing_rx ≡ false
      → InPhase aead derive seen phase t
      → Idle aead derive seen t
  InPhase-Idle idle t off h = h
  InPhase-Idle (deriving_key fin key) t off h = cc (h.2)
  InPhase-Idle (sending_success fin) t off h = cc (h.0.2)
  InPhase-Idle (opening_length fin r) t off h = cc (h.2)
  InPhase-Idle (opening_payload fin r) t off h = cc (h.2)
  InPhase-Idle (writing fin) t off h = cc (h.0.2)
  InPhase-Idle closing t off h = cc (h.0.2)

  pub InPhase-Prefix :
      (phase : Phase K) (t : Tunnel K)
      → InPhase aead derive seen phase t
      → Prefix aead derive seen t.written
  InPhase-Prefix idle t h = h.0
  InPhase-Prefix (deriving_key fin key) t (a, b, c, r) = Reads-Prefix aead derive seen t.written r
  InPhase-Prefix (sending_success fin) t h = Reads-Prefix aead derive seen t.written h.0.0
  InPhase-Prefix (opening_length fin x) t (a, b, c, r) = Reads-Prefix aead derive seen t.written r
  InPhase-Prefix (opening_payload fin x) t (a, b, c, r) = (output x, _, _, r)
  InPhase-Prefix (writing fin) t h = Reads-Prefix aead derive seen t.written h.0.0
  InPhase-Prefix closing t h = Reads-Prefix aead derive seen t.written h.0.0

  pub process_rx_queue-Inv :
      (t : Tunnel K)
      → Inv aead derive seen t
      → Inv aead derive seen (process_rx_queue aead derive t)
  unfolding process_rx_queue
  process_rx_queue-Inv t h =
      let t' = record t { is_processing_rx = true } in
      either_way (Inv aead derive seen) (t.is_processing_rx || t.is_terminated) t
        (run_queue aead derive t.rx_queue t') (λ _. h)
        (λ free.
          let (r, k, stuck) = (InPhase-Idle t.phase t (ground arith) h).1 (ground arith) in
          run_queue-Inv t.rx_queue t' (refl, ((r, k, refl), λ _. stuck)))
