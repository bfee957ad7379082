-- ===== src/Tunnel/Turns.antt =====
-- Every turn of the event loop keeps the receive side in step with the decoder.
use iwa_brook_quic.Base.{
  ℕ, ◌≡◌, ◌∙◌, refl, sym, ap, subst, ◌==◌, either_way, Bool, true, false, not, ◌&&◌, Option, none,
  some, List, [], ◌∷◌, ◌++◌, length, arith, append-nil, append_assoc,
}
use iwa_brook_quic.Framing.{Aead, ok, err}
use iwa_brook_quic.Tunnel.State.{
  Tunnel, Options, Item, Phase, Reason, idle, deriving_key, sending_success, opening_length,
  opening_payload, writing, closing, rx_error, decrypt_error, client_write_error, client_abort,
  framing_error, target_dial_refused, both_closed,
}
use iwa_brook_quic.Tunnel.Cleanup.{
  reset_idle_timer, cleanup, ended_by, check_full_close, has_partial_frame,
}
use iwa_brook_quic.Tunnel.Decode.{suspended, settle_handshake, decode_frames}
use iwa_brook_quic.Tunnel.Rx.{deliver, accept_key, resume_phase, resume_rx}
use iwa_brook_quic.Tunnel.Tracking.{
  queue_chunks-append, decoder_of, opened_length_ok, opened_payload_ok, Reads,
}
use iwa_brook_quic.Tunnel.Decoder.{Decoder, Runs-extend}
use iwa_brook_quic.Tunnel.Stream.{
  view, pending_bytes, Tracks, InPhase, Inv, Post, Reads-Prefix, cleanup-Idle, decode_frames-Post,
  decode_payload-Post, after_close-Post,
}
use iwa_brook_quic.Tunnel.Delivery.{settle-Inv}

empty_plain : (xs : List ℕ) → (length xs == 0) ≡ true → xs ≡ []
empty_plain [] e = refl
empty_plain (x ∷ xs) e = ground arith

module _ {K : Type 0} (aead : Aead K) (derive : List ℕ → Option K) (options : Options)
    (seen : List ℕ) where
  accept_key-Post :
      (fin : Bool) (key : K) (t : Tunnel K)
      → InPhase aead derive seen (deriving_key fin (some key)) t
      → Post aead derive seen (accept_key aead derive options fin key t)
  unfolding accept_key settle_handshake
  accept_key-Post fin key t (fresh, waits, running, r) =
      let t' = record t {
        server_cipher = some key;
        server_handshake_done = true;
        handshake_timer = false;
      } in
      let tracks : Tracks aead derive seen t' = (
        subst
            (λ e.
              Reads aead derive seen t.written (decoder_of true (some key) t.sn e)
                (pending_bytes t))
            (sym waits) r,
        (λ _. tt, λ f. cc),
        running,
      ) in
      either_way (Post aead derive seen) (options.has_send_success && not t.success_sent)
        (record t' { success_sent = true; phase = sending_success fin }, suspended)
        (decode_frames aead fin (settle_handshake t')) (λ _. (tracks, refl))
        (λ _. decode_frames-Post aead derive seen fin (settle_handshake t') refl tracks)

  deliver-Post :
      (fin : Bool) (plain : List ℕ) (t : Tunnel K)
      → InPhase aead derive seen (opening_payload fin (ok plain)) t
      → Post aead derive seen (deliver aead derive fin plain t)
  unfolding deliver
  deliver-Post fin plain t (done, key, running, r) =
      let t' = record t { expected_payload_len = none } in
      let d =
        opened_payload_ok t.server_cipher t.sn plain key
        ∙ ap (λ b. decoder_of b t.server_cipher t.sn none) (sym done) in
      let r' : Reads aead derive seen (t.written ++ plain) (view t') (pending_bytes t) =
        subst (λ v. Reads aead derive seen (t.written ++ plain) v (pending_bytes t)) d r in
      either_way (Post aead derive seen) (length plain == 0) (decode_frames aead fin t') _
        (λ empty. decode_frames-Post aead derive seen fin t' done (
          rw append-nil at (
              subst (λ xs. Reads aead derive seen (t.written ++ xs) (view t') (pending_bytes t))
                (empty_plain plain empty) r'),
          (λ _. key, λ _. refl),
          running,
        ))
        (λ _. ((r', (λ _. key, λ _. refl), running), done))

  resume_phase-Post :
      (is_done : Bool) (phase : Phase K) (t : Tunnel K)
      → t.phase ≡ phase
      → InPhase aead derive seen phase t
      → Post aead derive seen (resume_phase aead derive options is_done phase t)
  unfolding resume_phase settle_handshake reset_idle_timer
  resume_phase-Post is_done idle t e h = subst (λ p. InPhase aead derive seen p t) (sym e) h
  resume_phase-Post is_done (deriving_key fin none) t e (fresh, waits, running, r) =
      cleanup-Idle aead derive seen rx_error t (Reads-Prefix aead derive seen t.written r)
  resume_phase-Post is_done (deriving_key fin (some key)) t e h = accept_key-Post fin key t h
  resume_phase-Post is_done (sending_success fin) t e (tracks, done) =
      decode_frames-Post aead derive seen fin (settle_handshake t) done tracks
  resume_phase-Post is_done (opening_length fin (err x)) t e (done, key, running, r) =
      cleanup-Idle aead derive seen decrypt_error t (Reads-Prefix aead derive seen t.written r)
  resume_phase-Post is_done (opening_length fin (ok len)) t e (done, key, running, r) =
      let d =
        opened_length_ok t.server_cipher t.sn len key
        ∙ ap (λ b. decoder_of b t.server_cipher t.sn (some len)) (sym done) in
      decode_payload-Post aead derive seen fin len (record t { expected_payload_len = some len })
        done refl
        (
          subst (λ v. Reads aead derive seen t.written v (pending_bytes t)) d r,
          (λ _. key, λ f. absurd (cc)),
          running,
        )
  resume_phase-Post is_done (opening_payload fin (err x)) t e (done, key, running, r) =
      cleanup-Idle aead derive seen decrypt_error t ([], _, _, r)
  resume_phase-Post is_done (opening_payload fin (ok plain)) t e h = deliver-Post fin plain t h
  resume_phase-Post true (writing fin) t e (tracks, done) =
      decode_frames-Post aead derive seen fin (reset_idle_timer none t) done tracks
  resume_phase-Post false (writing fin) t e (tracks, done) =
      cleanup-Idle aead derive seen client_write_error t
        (Reads-Prefix aead derive seen t.written tracks.0)
  resume_phase-Post is_done closing t e h = after_close-Post aead derive seen t h

  pub resume_rx-Inv :
      (is_done : Bool) (t : Tunnel K)
      → Inv aead derive seen t
      → Inv aead derive seen (resume_rx aead derive options is_done t)
  unfolding resume_rx
  resume_rx-Inv is_done t h =
      settle-Inv aead derive seen (resume_phase aead derive options is_done t.phase t)
        (resume_phase-Post is_done t.phase t refl h)

module _ {K : Type 0} (aead : Aead K) (derive : List ℕ → Option K) (seen : List ℕ) where
  ended-InPhase :
      (reason : Reason) (phase : Phase K) (t : Tunnel K)
      → InPhase aead derive seen phase t
      → InPhase aead derive seen phase (ended_by reason t)
  ended-InPhase reason idle t h = (h.0, λ running. absurd (cc))
  ended-InPhase reason (deriving_key fin key) t h = h
  ended-InPhase reason (sending_success fin) t h = h
  ended-InPhase reason (opening_length fin r) t h = h
  ended-InPhase reason (opening_payload fin r) t h = h
  ended-InPhase reason (writing fin) t h = h
  ended-InPhase reason closing t h = (h.0, λ running. absurd (cc))

  pub cleanup-Inv :
      (reason : Reason) (t : Tunnel K)
      → Inv aead derive seen t
      → Inv aead derive seen (cleanup reason t)
  unfolding cleanup
  cleanup-Inv reason t h =
      either_way (Inv aead derive seen) t.is_terminated t (ended_by reason t) (λ _. h)
        (λ _. ended-InPhase reason t.phase t h)

  pub check_full_close-Inv :
      (t : Tunnel K) → Inv aead derive seen t → Inv aead derive seen (check_full_close t)
  unfolding check_full_close
  check_full_close-Inv t h =
      let I = Inv aead derive seen in
      either_way I (not (t.client_read_closed && t.server_fin_received)) t _ (λ _. h)
        (λ _.
          either_way I (not t.server_handshake_done) (cleanup client_abort t) _
            (λ _. cleanup-Inv client_abort t h)
            (λ _.
              either_way I (has_partial_frame t) (cleanup framing_error t) _
                (λ _. cleanup-Inv framing_error t h)
                (λ _.
                  either_way I (t.total_bytes_recv == 0) (cleanup target_dial_refused t)
                    (cleanup both_closed t) (λ _. cleanup-Inv target_dial_refused t h)
                    (λ _. cleanup-Inv both_closed t h))))

  -- The timers, the flags of the transport and of the client, and the counters play no part.
  pub aside-InPhase :
      (phase : Phase K) (t : Tunnel K) (queued metrics : ℕ) (timer : Option ℕ)
      (armed scheduled lost write_closed failed cancelled completed : Bool)
      → InPhase aead derive seen phase t
      → InPhase aead derive seen phase (record t {
        rx_queued_bytes = queued;
        metrics_rx_queued = metrics;
        idle_timer = timer;
        handshake_timer = armed;
        rx_scheduled = scheduled;
        transport_closed = lost;
        client_write_closed = write_closed;
        failure_sent = failed;
        client_cancelled = cancelled;
        is_completed = completed;
      })
  aside-InPhase idle t q m a b c d e f g k h = h
  aside-InPhase (deriving_key fin key) t q m a b c d e f g k h = h
  aside-InPhase (sending_success fin) t q m a b c d e f g k h = h
  aside-InPhase (opening_length fin r) t q m a b c d e f g k h = h
  aside-InPhase (opening_payload fin r) t q m a b c d e f g k h = h
  aside-InPhase (writing fin) t q m a b c d e f g k h = h
  aside-InPhase closing t q m a b c d e f g k h = h

  -- One more entry in the queue is so many more bytes seen.
  push-InPhase :
      (phase : Phase K) (item : Item) (t : Tunnel K)
      → InPhase aead derive seen phase t
      → InPhase aead derive
          (seen ++ item.chunk)
          phase
          (record t { rx_queue = t.rx_queue ++ (item ∷ []) })
  push-InPhase phase item t = by_phase phase
    where
      t' : Tunnel K
      t' = record t { rx_queue = t.rx_queue ++ (item ∷ []) }

      more :
          {d : Decoder K} {written : List ℕ}
          → Reads aead derive seen written d (pending_bytes t)
          → Reads aead derive (seen ++ item.chunk) written d (pending_bytes t')
      more r =
          rw (queue_chunks-append t.rx_queue (item ∷ []), append-nil)
            (rw append_assoc at (Runs-extend aead derive item.chunk r))

      by_phase :
          (p : Phase K)
          → InPhase aead derive seen p t
          → InPhase aead derive (seen ++ item.chunk) p t'
      by_phase idle ((out, d, rest, r), live) = (
        (out, d, rest ++ item.chunk, Runs-extend aead derive item.chunk r),
        λ running. (more (live running).0, (live running).1, (live running).2),
      )
      by_phase (deriving_key fin key) (a, b, c, r) = (a, b, c, more r)
      by_phase (sending_success fin) ((r, k, c), done) = ((more r, k, c), done)
      by_phase (opening_length fin x) (a, b, c, r) = (a, b, c, more r)
      by_phase (opening_payload fin x) (a, b, c, r) = (a, b, c, more r)
      by_phase (writing fin) ((r, k, c), done) = ((more r, k, c), done)
      by_phase closing ((r, k, c), stuck) = ((more r, k, c), stuck)

  pub push-Inv :
      (item : Item) (t : Tunnel K)
      → Inv aead derive seen t
      → Inv aead derive (seen ++ item.chunk) (record t { rx_queue = t.rx_queue ++ (item ∷ []) })
  push-Inv item t h = push-InPhase t.phase item t h
