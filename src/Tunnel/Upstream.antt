-- ===== src/Tunnel/Upstream.antt =====
-- `BrookTunnel.run` as a whole: the handshake that it sends, its loop over the client's reads, and its
-- end, beside the receive side. A step goes from one `await` to the next; the awaits within
-- `sealFrame` are taken with the step before them, as nothing else uses the client's nonce.
pub mod Frames
pub mod Progress
pub mod Steps
pub mod Fin
pub mod Sent
pub mod Rule
pub mod Received
pub mod Outcome
pub mod Accounts
use iwa_brook_quic.Base.{
  ℕ, ◌+◌, ◌-◌, if◌then◌else◌, Bool, true, false, not, ◌&&◌, ◌||◌, Option, none, some, List, [], ◌∷◌,
  ◌++◌, length,
}
use iwa_brook_quic.Framing.{Aead, Result, ok, err, seal_frame}
use iwa_brook_quic.Tunnel.State.{
  Tunnel, Options, Promise, pending, start, client_abort, upstream_write_failed, tunnel_error,
  loop_exit,
}
use iwa_brook_quic.Tunnel.Cleanup.{reset_idle_timer, cleanup, check_full_close}
use iwa_brook_quic.Tunnel.Callbacks.{Event, step}
use iwa_brook_quic.Tunnel.Upload.{Upload, slices}

-- Where `run` is suspended: at `ensureConnected`, at a send with the slices that follow, at the
-- handshake, at a read, at the FIN, or at `completionPromise`; or it has come to its `finally` block.
-- A chunk of the client has the number of bytes of its read that are left, too.
pub data UpPhase : Type 0 where
  connecting sending_nonce awaiting_handshake reading sending_fin : UpPhase
  awaiting_completion ended : UpPhase
  sending_header : List ℕ → UpPhase
  sending_leftover : List ℕ → List ℕ → List (List ℕ) → UpPhase
  sending_chunk : List ℕ → List ℕ → List (List ℕ) → ℕ → UpPhase

-- What `clientReader.read` comes to.
pub data ClientRead : Type 0 where
  read_value : List ℕ → ClientRead
  read_done read_throws : ClientRead

pub data RunEvent : Type 0 where
  receives : Event → RunEvent
  resumes : Bool → RunEvent
  reads : ClientRead → RunEvent

-- The receive side, the variables of the sending side, and what the client's reads have given.
pub record Run (K : Type 0) : Type 0 where
  pub rx : Tunnel K
  pub up : Upload
  pub up_phase : UpPhase
  pub fin_sent : Bool
  pub consumed : List ℕ

-- `handshakePromise` is settled.
abbrev pub is_settled : Promise → Bool
is_settled pending = false
is_settled _ = true

abbrev pub is_nil : List ℕ → Bool
is_nil [] = true
is_nil (x ∷ xs) = false

abbrev pub new_run : {K : Type 0} → List ℕ → ℕ → ℕ → Run K
new_run nonce metrics upload_pending = record {
  rx = reset_idle_timer none (start metrics);
  up = record {
    client_nonce = nonce;
    sent = [];
    total_bytes_sent = 0;
    upload_pending_bytes = upload_pending;
  };
  up_phase = connecting;
  fin_sent = false;
  consumed = [];
}

-- A frame was taken by the stream.
abbrev pub frame_sent : List ℕ → Upload → Upload
frame_sent frame u = record u {
  sent = u.sent ++ frame;
  total_bytes_sent = u.total_bytes_sent + length frame;
}

module _ {K : Type 0} where
  -- The `finally` block.
  unfoldable pub finish_run : Run K → Run K
  finish_run r = record r { rx = cleanup loop_exit r.rx; up_phase = ended }

  -- The `catch` block around all.
  abbrev pub run_throws : Run K → Run K
  run_throws r = finish_run (record r { rx = cleanup tunnel_error r.rx })

  -- After the loop.
  unfoldable pub leave_loop : Run K → Run K
  leave_loop r =
      if r.rx.is_terminated || r.rx.server_fin_received
      then finish_run r
      else record r { up_phase = awaiting_completion }

  -- The head of the loop.
  unfoldable pub next_client_read : Run K → Run K
  next_client_read r = if r.rx.is_terminated then leave_loop r else record r { up_phase = reading }

  -- The handshake is awaited; its timer runs.
  abbrev pub await_handshake : Run K → Run K
  await_handshake r = record r {
    rx = record r.rx { handshake_timer = true };
    up_phase = awaiting_handshake;
  }

-- The client's key, its nonce and the header, and the leftover bytes of its request.
module _ {K : Type 0} (aead : Aead K) (derive : List ℕ → Option K) (options : Options) (key : K)
    (nonce header leftover : List ℕ) where
  -- A frame is sealed; where that fails, `run` throws.
  abbrev pub with_frame : Run K → List ℕ × Result (List ℕ) → (List ℕ → UpPhase) → Run K
  with_frame r (nonce', err e) phase =
      run_throws (record r { up = record r.up { client_nonce = nonce' } })
  with_frame r (nonce', ok frame) phase = record r {
    up = record r.up { client_nonce = nonce' };
    up_phase = phase frame;
  }

  unfoldable pub send_leftover : List (List ℕ) → Run K → Run K
  send_leftover [] r = await_handshake r
  send_leftover (slice ∷ rest) r =
      with_frame r (seal_frame aead key r.up.client_nonce slice)
        (λ frame. sending_leftover frame slice rest)

  unfoldable pub send_chunks : List (List ℕ) → ℕ → Run K → Run K
  send_chunks [] remaining r = next_client_read r
  send_chunks (slice ∷ rest) remaining r =
      with_frame r (seal_frame aead key r.up.client_nonce slice)
        (λ frame. sending_chunk frame slice rest remaining)

  -- The awaited connection, send or promise is settled.
  unfoldable pub resume_up : Bool → UpPhase → Run K → Run K
  resume_up true connecting r = record r { up_phase = sending_nonce }
  resume_up true sending_nonce r =
      let r' = record r { up = frame_sent nonce r.up } in
      with_frame r' (seal_frame aead key r.up.client_nonce header) sending_header
  resume_up true (sending_header frame) r =
      let t = if is_nil leftover then r.rx else record r.rx { has_exchanged_data = true } in
      send_leftover (slices leftover) (record r { rx = t; up = frame_sent frame r.up })
  resume_up true (sending_leftover frame slice rest) r =
      send_leftover rest (record r { up = frame_sent frame r.up })
  resume_up true (sending_chunk frame slice rest remaining) r =
      send_chunks rest (remaining - length slice) (record r {
        up = record (frame_sent frame r.up) {
          upload_pending_bytes = r.up.upload_pending_bytes - length slice;
        };
      })
  resume_up false (sending_chunk frame slice rest remaining) r = leave_loop (record r {
    rx = cleanup upstream_write_failed r.rx;
    up = record r.up { upload_pending_bytes = r.up.upload_pending_bytes - remaining };
  })
  resume_up is_done awaiting_handshake r =
      if not (is_settled r.rx.handshake)
      then r
      else if r.rx.server_handshake_done && not r.rx.is_terminated
      then next_client_read r
      else finish_run r
  resume_up is_done sending_fin r =
      let t = check_full_close r.rx in
      let t' =
        if t.is_terminated || t.server_fin_received then t else reset_idle_timer (some 15000) t in
      leave_loop (record r { rx = t'; fin_sent = is_done })
  resume_up is_done awaiting_completion r = if r.rx.is_completed then finish_run r else r
  resume_up is_done reading r = r
  resume_up is_done ended r = r
  resume_up false _ r = run_throws r

  -- A read of the client is settled.
  unfoldable pub after_read : ClientRead → Run K → Run K
  after_read (read_value []) r = next_client_read r
  after_read (read_value (b ∷ bs)) r =
      let value = b ∷ bs in
      send_chunks (slices value) (length value) (record r {
        rx = reset_idle_timer none (record r.rx { has_exchanged_data = true });
        up = record r.up { upload_pending_bytes = r.up.upload_pending_bytes + length value };
        consumed = r.consumed ++ value;
      })
  after_read read_done r =
      let t = record r.rx { client_read_closed = true } in
      if r.rx.server_handshake_done
      then record r { rx = t; up_phase = sending_fin }
      else leave_loop (record r { rx = cleanup client_abort t })
  after_read read_throws r = leave_loop (record r { rx = cleanup client_abort r.rx })

  unfoldable pub client_read : ClientRead → UpPhase → Run K → Run K
  client_read read reading r = after_read read r
  client_read read _ r = r

  -- A turn of the event loop: on the receive side, or of `run` itself.
  unfoldable pub run_step : RunEvent → Run K → Run K
  run_step (receives event) r = record r { rx = step aead derive options event r.rx }
  run_step (resumes is_done) r = resume_up is_done r.up_phase r
  run_step (reads read) r = client_read read r.up_phase r

  unfoldable pub run_all : List RunEvent → Run K → Run K
  run_all [] r = r
  run_all (event ∷ events) r = run_all events (run_step event r)

  abbrev pub run_from : List RunEvent → ℕ → ℕ → Run K
  run_from events metrics upload_pending = run_all events (new_run nonce metrics upload_pending)
