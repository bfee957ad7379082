-- ===== src/Tunnel/Cleanup.antt =====
-- `resetIdleTimer`, `cleanup` up to its first `await`, and `checkFullClose`.
use iwa_brook_quic.Base.{
  ℕ, ◌-◌, ltb, ◌==◌, if◌then◌else◌, Bool, true, false, not, ◌&&◌, ◌||◌, Option, none, some, length,
}
use iwa_brook_quic.Tunnel.State.{
  Tunnel, Options, Reason, Promise, both_closed, client_abort, framing_error, target_dial_refused,
  pending, resolved, rejected,
}

abbrev pub is_none : {A : Type 0} → Option A → Bool
is_none none = true
is_none (some a) = false

abbrev pub reject_handshake : Promise → Promise
reject_handshake pending = rejected
reject_handshake resolved = resolved
reject_handshake rejected = rejected

module _ {K : Type 0} where
  -- The default duration, by what the tunnel has seen.
  abbrev pub idle_timeout_ms : Tunnel K → ℕ
  idle_timeout_ms t =
      if t.server_fin_received
      then 15000
      else if t.client_read_closed
      then 30000
      else if t.has_exchanged_data
      then 60000
      else 30000

  -- The timer is cleared and, unless the tunnel has ended, armed anew.
  unfoldable pub reset_idle_timer : Option ℕ → Tunnel K → Tunnel K
  reset_idle_timer duration_ms t =
      let timeout : ℕ = elim duration_ms [ none ↦ idle_timeout_ms t | some d ↦ d ] in
      record t { idle_timer = if t.is_terminated then none else some timeout }

  abbrev pub ended_by : Reason → Tunnel K → Tunnel K
  ended_by reason t = record t {
    is_terminated = true;
    termination_reason = reason;
    handshake = if t.server_handshake_done then t.handshake else reject_handshake t.handshake;
    handshake_timer = false;
    idle_timer = none;
    is_registered = false;
    metrics_rx_queued = t.metrics_rx_queued - t.rx_queued_bytes;
    rx_queued_bytes = 0;
  }

  -- The first call ends the tunnel; any later one changes nothing.
  unfoldable pub cleanup : Reason → Tunnel K → Tunnel K
  cleanup reason t = if t.is_terminated then t else ended_by reason t

  -- The rest of `cleanup`, once a pending write is settled or given up: the failure reply, and the
  -- closing of the client's streams, whose bounded waits are taken as one step.
  unfoldable pub finish_cleanup : Options → Tunnel K → Tunnel K
  finish_cleanup options t =
      let closes = options.close_client_streams || t.server_handshake_done in
      record t {
        failure_sent =
            t.failure_sent
            || (not t.server_handshake_done
                && not t.success_sent
                && options.has_send_failure
                && options.close_client_streams);
        client_cancelled = t.client_cancelled || closes;
        client_write_closed = t.client_write_closed || closes;
        is_completed = true;
      }

  -- `expectedPayloadLen !== -1 || rxBuffer.length - rxOffset > 0`
  abbrev pub has_partial_frame : Tunnel K → Bool
  has_partial_frame t = not (is_none t.expected_payload_len) || ltb t.rx_offset (length t.rx_buffer)

  unfoldable pub check_full_close : Tunnel K → Tunnel K
  check_full_close t =
      if not (t.client_read_closed && t.server_fin_received)
      then t
      else if not t.server_handshake_done
      then cleanup client_abort t
      else if has_partial_frame t
      then cleanup framing_error t
      else if t.total_bytes_recv == 0
      then cleanup target_dial_refused t
      else cleanup both_closed t
