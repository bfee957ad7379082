-- ===== src/SessionWorker.antt =====
-- brook-quicclient/src/workers/wt-session.worker.js: `runWtTunnel`, the attempts that a worker makes
-- for one tunnel, up to its message `DONE`.
pub mod Steps
pub mod Shut
pub mod Attempts
pub mod Closing
mod Tests
use iwa_brook_quic.Base.{
  ℕ, zero, suc, ◌+◌, ltb, leb, ◌==◌, if◌then◌else◌, Bool, true, false, not, ◌&&◌, ◌||◌, Option,
  none, some, List, [], ◌∷◌, ◌++◌,
}
use iwa_brook_quic.Retry.{
  Dial, unavailable, ran, threw, TunnelCall, TunnelOutcome, Contact, new_contact, Wiring,
  failure_reply, reply_once, tunnel_calls, is_client_abort, is_rx_overflow,
}

-- The variables of `runWtTunnel`; `managers_closed` counts the calls of `wtManager.close`. What the
-- worker says when it is done is the outcome that it reports, or none for an error of its own.
pub record Worker : Type 0 where
  pub is_closed : Bool
  pub contact : Contact
  pub has_last_error : Bool
  pub final_outcome : Option TunnelOutcome
  pub has_manager : Bool
  pub managers_closed : ℕ
  pub dials : List Dial
  pub done_messages : List (Option TunnelOutcome)

abbrev pub new_worker : Bool → Worker
new_worker has_manager = record {
  is_closed = false;
  contact = new_contact;
  has_last_error = false;
  final_outcome = none;
  has_manager = has_manager;
  managers_closed = 0;
  dials = [];
  done_messages = [];
}

-- What an attempt meets: whether a message `CLOSE` comes before it, while it waits for its session,
-- or during the run of its tunnel; whether the stream of the session ends during that run, where the
-- session of brook-quicclient/src/webtransport/wt-stream-adapter.js closes itself; and what the dial
-- comes to.
pub record WorkerAttempt : Type 0 where
  pub closes_before : Bool
  pub closes_in_dial : Bool
  pub closes_in_run : Bool
  pub session_ends : Bool
  pub dial : Dial

-- `cleanup`
unfoldable pub cleanup_worker : Worker → Worker
cleanup_worker w =
    if w.is_closed
    then w
    else record w { is_closed = true; contact = record w.contact { is_session_open = false } }

abbrev pub cleanup_when : Bool → Worker → Worker
cleanup_when comes w = if comes then cleanup_worker w else w

abbrev pub worker_max_attempts : ℕ
worker_max_attempts = 3

pub data WorkerNext : Type 0 where
  goes_on leaves : Worker → WorkerNext

-- The tunnel gets no `onClose` here.
abbrev pub worker_wiring : ℕ → Wiring
worker_wiring attempt = record { send_failure = attempt == worker_max_attempts; on_close = false }

-- What forbids another attempt.
abbrev pub worker_is_spent : TunnelOutcome → Contact → Bool
worker_is_spent outcome c =
    c.client_data_consumed
    || c.proxy_replied
    || ltb 0 outcome.bytes_received
    || is_client_abort outcome.kind
    || is_rx_overflow outcome.kind

unfoldable pub worker_after_run : TunnelOutcome → Worker → WorkerNext
worker_after_run outcome w =
    if outcome.success
    then leaves (record w { final_outcome = some outcome; has_last_error = false })
    else if worker_is_spent outcome w.contact
    then leaves (record w {
      final_outcome = some outcome;
      has_last_error = true;
      contact = record w.contact { is_session_open = false };
    })
    else goes_on (record w {
      final_outcome = some outcome;
      has_last_error = true;
      contact = record w.contact { is_session_open = false };
    })

-- The run of the tunnel on a new session, which `streamSession` holds. The pump of a session whose
-- stream ends closes it.
unfoldable pub run_tunnel : ℕ → Bool → Bool → List TunnelCall → Worker → Worker
run_tunnel attempt closes ends calls w =
    let c =
      tunnel_calls (worker_wiring attempt) calls (record w.contact { is_session_open = true }) in
    cleanup_when closes (record w {
      has_manager = true;
      contact = record c { is_session_open = c.is_session_open && not ends };
    })

unfoldable pub after_throw : ℕ → Worker → WorkerNext
after_throw attempt w =
    if w.contact.client_data_consumed || w.contact.proxy_replied || (attempt == worker_max_attempts)
    then leaves (record w { has_last_error = true })
    else goes_on (record w { has_last_error = true })

unfoldable pub worker_dial : ℕ → Bool → Bool → Dial → Worker → WorkerNext
worker_dial attempt closes ends unavailable w =
    let w' = record w {
      has_last_error = true;
      has_manager = false;
      managers_closed = suc w.managers_closed;
    } in
    if attempt == worker_max_attempts then leaves w' else goes_on w'
worker_dial attempt closes ends (ran calls outcome) w =
    worker_after_run outcome (run_tunnel attempt closes ends calls w)
worker_dial attempt closes ends (threw calls) w =
    after_throw attempt (run_tunnel attempt closes ends calls w)

unfoldable pub worker_attempt : ℕ → WorkerAttempt → Worker → WorkerNext
worker_attempt attempt a w =
    let w' = cleanup_when a.closes_before w in
    let dialled = cleanup_when a.closes_in_dial (record w' { dials = a.dial ∷ w'.dials }) in
    if w'.is_closed
    then leaves w'
    else worker_dial attempt a.closes_in_run a.session_ends a.dial dialled

-- The loop; it ends with the worker, or out of fuel.
unfoldable pub worker_loop : ℕ → ℕ → (ℕ → WorkerAttempt) → Worker → Option Worker
worker_loop zero attempt env w = none
worker_loop (suc fuel) attempt env w = elim (leb attempt worker_max_attempts) [
  | false ↦ some w
  | true ↦ elim (worker_attempt attempt (env attempt) w) [
    | goes_on w' ↦ worker_loop fuel (suc attempt) env w'
    | leaves w' ↦ some w'
  ]
]

abbrev pub has_won : Option TunnelOutcome → Bool
has_won none = false
has_won (some outcome) = outcome.success

-- What follows the loop, with the `finally` block.
unfoldable pub report : Worker → Worker
report w = cleanup_worker (record w {
  done_messages = w.done_messages ++ (w.final_outcome ∷ []);
  contact = if has_won w.final_outcome then w.contact else reply_once (failure_reply 5) w.contact;
})

unfoldable pub run_wt_tunnel : (ℕ → WorkerAttempt) → Worker → Option Worker
run_wt_tunnel env w = elim (worker_loop (suc worker_max_attempts) 1 env w) [
  | none ↦ none
  | some w' ↦ some (report w')
]
