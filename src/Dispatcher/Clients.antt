-- ===== src/Dispatcher/Clients.antt =====
-- The clients of the dispatcher, from their accepted sockets to their ends, with the session tracker
-- that they share: `_handleClient`, and what `_processClient` does to the tracker. Each runs in its own
-- time, so an event is what one client does between two of its `await`s, and the events of different
-- clients come in any order.
use iwa_brook_quic.Base.{ℕ, if◌then◌else◌, Bool, none, some, List, [], ◌∷◌}
use iwa_brook_quic.Base.Table.{Eq, number_eq, insert, delete, has, lookup}
use iwa_brook_quic.SessionTracker.{
  SessionTracker, new_tracker, create_session, record_bytes, close_session, tick,
}

-- How far `_processClient` has come for a client: it has no session yet, or the session of this id, or
-- its `finally` block is over.
pub data ClientPhase (K : Type 0) : Type 0 where
  opening settled : ClientPhase K
  serving : K → ClientPhase K

-- `clients` are the calls of `_handleClient` that have not returned. `accepted` names the calls, the
-- last one first, and `completions` the calls whose `onComplete` was called.
pub record Dispatcher (K I : Type 0) : Type 0 where
  pub tracker : SessionTracker K I
  pub active_handlers : List (ℕ × Unit {0})
  pub clients : List (ℕ × ClientPhase K)
  pub accepted : List ℕ
  pub completions : List ℕ

abbrev pub new_dispatcher : {K I : Type 0} → ℕ → Dispatcher K I
new_dispatcher now = record {
  tracker = new_tracker now;
  active_handlers = [];
  clients = [];
  accepted = [];
  completions = [];
}

-- `_handleClient` is called, online or not; the request of a client is read; a tunnel calls the
-- `onBytes` of the session of this id; the `finally` block of `_processClient` is over, and that of
-- `_handleClient`. And the ticker of the tracker ticks, and `stop` clears the handlers. An event that
-- does not come next for its client changes nothing.
pub data ClientEvent (K I : Type 0) : Type 0 where
  accepts : Bool → ℕ → ClientEvent K I
  requests : ℕ → I → ClientEvent K I
  moves : K → ℕ → ℕ → ClientEvent K I
  settles finishes : ℕ → ClientEvent K I
  ticks : ℕ → ClientEvent K I
  stops : ClientEvent K I

module _ {K I : Type 0} where
  -- A name stands for one call at a time.
  unfoldable pub accept_client : Bool → ℕ → Dispatcher K I → Dispatcher K I
  accept_client is_online name d =
      if has name d.clients
      then d
      else if is_online
      then record d {
        active_handlers = insert name tt d.active_handlers;
        clients = insert name opening d.clients;
        accepted = name ∷ d.accepted;
      }
      else record d { accepted = name ∷ d.accepted; completions = name ∷ d.completions }

  unfoldable pub finish_client : ℕ → Dispatcher K I → Dispatcher K I
  finish_client name d = elim (lookup name d.clients) [
    | none ↦ d
    | some opening ↦ d
    | some (serving id) ↦ d
    | some settled ↦ record d {
      active_handlers = delete name d.active_handlers;
      clients = delete name d.clients;
      completions = name ∷ d.completions;
    }
  ]

module _ {K I : Type 0} ⦃e : Eq K⦄ (number_key : ℕ → K) (as_number as_text : K → K)
    (rate : ℕ → ℕ → ℕ) where
  unfoldable pub open_session : ℕ → I → Dispatcher K I → Dispatcher K I
  open_session name info d = elim (lookup name d.clients) [
    | none ↦ d
    | some settled ↦ d
    | some (serving id) ↦ d
    | some opening ↦
        let (tracker, id) = create_session number_key as_number as_text rate none info d.tracker in
        record d { tracker = tracker; clients = insert name (serving id) d.clients }
  ]

  -- The `finally` block of `_processClient`.
  unfoldable pub settle_client : ℕ → Dispatcher K I → Dispatcher K I
  settle_client name d = elim (lookup name d.clients) [
    | none ↦ d
    | some settled ↦ d
    | some opening ↦ record d { clients = insert name settled d.clients }
    | some (serving id) ↦ record d {
      tracker = close_session number_key as_number as_text rate id d.tracker;
      clients = insert name settled d.clients;
    }
  ]

  unfoldable pub client_step : ClientEvent K I → Dispatcher K I → Dispatcher K I
  client_step (accepts is_online name) d = accept_client is_online name d
  client_step (requests name info) d = open_session name info d
  client_step (moves id sent received) d = record d {
    tracker = record_bytes number_key as_number as_text rate id sent received d.tracker;
  }
  client_step (settles name) d = settle_client name d
  client_step (finishes name) d = finish_client name d
  client_step (ticks now) d = record d {
    tracker = tick number_key as_number as_text rate now d.tracker;
  }
  client_step stops d = record d { active_handlers = [] }

  unfoldable pub client_run : List (ClientEvent K I) → Dispatcher K I → Dispatcher K I
  client_run [] d = d
  client_run (event ∷ events) d = client_run events (client_step event d)
