-- ===== src/Dispatcher.antt =====
-- brook-quicclient/src/server/proxy-dispatcher.js: the attempts for one client, and what surrounds
-- them from the accepted socket to its end.
pub mod Rule
pub mod Attempts
pub mod Answers
pub mod Clients
pub mod Served
pub mod Totals
pub mod Phases
pub mod Sessions
mod Tests
use iwa_brook_quic.Base.{
  ℕ, zero, suc, ◌+◌, ltb, leb, ◌==◌, if◌then◌else◌, Bool, true, false, not, ◌&&◌, ◌||◌, Option,
  none, some, List, [], ◌∷◌,
}
use iwa_brook_quic.Tunnel.State.{Reason}
use iwa_brook_quic.Retry.{
  Dial, unavailable, ran, threw, TunnelOutcome, Contact, new_contact, Wiring, failure_reply,
  reply_once, tunnel_calls, is_client_abort, is_rx_overflow,
}

-- What `tunnelError` holds.
pub data TunnelError : Type 0 where
  no_session : TunnelError
  tunnel_failed : Reason → TunnelError
  run_threw : TunnelError

-- What an attempt meets: `this.isRunning`, `networkMonitor.isOnline`, and what the dial comes to.
pub record Attempt : Type 0 where
  pub is_running : Bool
  pub is_online : Bool
  pub dial : Dial

-- The variables of `_processClient` about the attempts, and `totalRetries`. `dials` lists what was
-- dialled, the last attempt first, and `abandoned` counts the open sessions that `quicSession` let go.
pub record Client : Type 0 where
  pub contact : Contact
  pub tunnel_error : Option TunnelError
  pub final_outcome : Option TunnelOutcome
  pub total_retries : ℕ
  pub dials : List Dial
  pub abandoned : ℕ

abbrev pub new_client : ℕ → Client
new_client retries = record {
  contact = new_contact;
  tunnel_error = none;
  final_outcome = none;
  total_retries = retries;
  dials = [];
  abandoned = 0;
}

abbrev pub max_attempts : ℕ
max_attempts = 3

-- `continue`, `break`, or a throw out of the loop.
pub data Next : Type 0 where
  again leaves throws : Client → Next

-- `quicSession = null`
unfoldable pub forget_session : Dial → Client → Client
forget_session dial c = record c {
  contact = record c.contact { is_session_open = false };
  dials = dial ∷ c.dials;
  abandoned = (if c.contact.is_session_open then suc c.abandoned else c.abandoned);
}

-- `quicSession.close()`
abbrev pub close_session : Contact → Contact
close_session c = record c { is_session_open = false }

-- What forbids another attempt.
abbrev pub is_spent : TunnelOutcome → Contact → Bool
is_spent outcome c =
    c.client_data_consumed
    || ltb 0 outcome.bytes_received
    || is_client_abort outcome.kind
    || is_rx_overflow outcome.kind

unfoldable pub after_run : ℕ → TunnelOutcome → Client → Next
after_run attempt outcome c =
    if outcome.success
    then leaves (record c { final_outcome = some outcome; tunnel_error = none })
    else if is_spent outcome c.contact
    then leaves (record c {
      final_outcome = some outcome;
      tunnel_error = some (tunnel_failed outcome.kind);
      contact = close_session c.contact;
    })
    else again (record c {
      final_outcome = some outcome;
      tunnel_error = some (tunnel_failed outcome.kind);
      contact = close_session c.contact;
      total_retries = if ltb attempt max_attempts then suc c.total_retries else c.total_retries;
    })

-- The run of the tunnel on the session that the attempt got.
abbrev pub wiring : ℕ → Wiring
wiring attempt = record { send_failure = attempt == max_attempts; on_close = true }

unfoldable pub run_dial : ℕ → Dial → Client → Next
run_dial attempt unavailable c =
    let c' = record c { tunnel_error = some no_session } in
    if attempt == max_attempts then leaves c' else again c'
run_dial attempt (ran calls outcome) c =
    let opened = record c.contact { is_session_open = true } in
    after_run attempt outcome (record c { contact = tunnel_calls (wiring attempt) calls opened })
run_dial attempt (threw calls) c =
    let opened = record c.contact { is_session_open = true } in
    leaves (record c {
      contact = close_session (tunnel_calls (wiring attempt) calls opened);
      tunnel_error = some run_threw;
    })

unfoldable pub attempt_once : ℕ → Attempt → Client → Next
attempt_once attempt a c =
    if not a.is_running
    then throws c
    else if not a.is_online
    then throws c
    else run_dial attempt a.dial (forget_session a.dial c)

-- The end of the loop.
pub data LoopEnd : Type 0 where
  finished thrown out_of_fuel : Client → LoopEnd

unfoldable pub attempt_loop : ℕ → ℕ → (ℕ → Attempt) → Client → LoopEnd
attempt_loop zero attempt env c = out_of_fuel c
attempt_loop (suc fuel) attempt env c = elim (leb attempt max_attempts) [
  | false ↦ finished c
  | true ↦ elim (attempt_once attempt (env attempt) c) [
    | again c' ↦ attempt_loop fuel (suc attempt) env c'
    | leaves c' ↦ finished c'
    | throws c' ↦ thrown c'
  ]
]

-- `if (tunnelError) await sendFailureOnce(0x05)`
unfoldable pub conclude : LoopEnd → Client
conclude (finished c) = elim c.tunnel_error [
  | none ↦ c
  | some _ ↦ record c { contact = reply_once (failure_reply 5) c.contact }
]
conclude (thrown c) = c
conclude (out_of_fuel c) = c

-- The attempts of `_processClient`, from the handshake on.
unfoldable pub attempts : (ℕ → Attempt) → Client → Client
attempts env c = conclude (attempt_loop (suc max_attempts) 1 env c)
