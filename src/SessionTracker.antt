-- ===== src/SessionTracker.antt =====
-- brook-quicclient/src/server/session-tracker.js: the sessions, their byte counts and the rates.
pub mod Counts
pub mod Removal
mod Tests
use iwa_brook_quic.Base.{
  ℕ, suc, ◌+◌, ◌-◌, ltb, if◌then◌else◌, Bool, Option, none, some, List, [], ◌∷◌, length, map,
}
use iwa_brook_quic.Base.Table.{Eq, lookup, insert, delete}

-- A session's entry: what is said of it (protocol, target, client), and its bytes.
pub record TrackedSession (I : Type 0) : Type 0 where
  pub info : I
  pub bytes_sent : ℕ
  pub bytes_received : ℕ

pub record SessionTracker (K I : Type 0) : Type 0 where
  pub sessions : List (K × TrackedSession I)
  pub next_session_id : ℕ
  pub total_bytes_sent : ℕ
  pub total_bytes_received : ℕ
  pub total_sessions_count : ℕ
  pub last_bytes_sent : ℕ
  pub last_bytes_received : ℕ
  pub last_timestamp : ℕ
  pub current_upload_speed : ℕ
  pub current_download_speed : ℕ

abbrev pub new_tracker : {K I : Type 0} → ℕ → SessionTracker K I
new_tracker now = record {
  sessions = [];
  next_session_id = 1;
  total_bytes_sent = 0;
  total_bytes_received = 0;
  total_sessions_count = 0;
  last_bytes_sent = 0;
  last_bytes_received = 0;
  last_timestamp = now;
  current_upload_speed = 0;
  current_download_speed = 0;
}

abbrev pub add_bytes : {I : Type 0} → ℕ → ℕ → TrackedSession I → TrackedSession I
add_bytes sent received s = record s {
  bytes_sent = s.bytes_sent + sent;
  bytes_received = s.bytes_received + received;
}

-- What is called on the tracker, and the ticker's ticks with their time.
pub data TrackerEvent (K I : Type 0) : Type 0 where
  creates : Option K → I → TrackerEvent K I
  records : K → ℕ → ℕ → TrackerEvent K I
  closes : K → TrackerEvent K I
  ticks : ℕ → TrackerEvent K I
  destroys : TrackerEvent K I

-- The ids are JavaScript values: `number_key` makes one of a number, and `as_number` and `as_text` are
-- `Number` and `String`. `rate` is the rounded quotient of bytes by milliseconds, per second.
module _ {K I : Type 0} ⦃e : Eq K⦄ (number_key : ℕ → K) (as_number as_text : K → K)
    (rate : ℕ → ℕ → ℕ) where
  unfoldable pub create_session : Option K → I → SessionTracker K I → SessionTracker K I × K
  create_session id info s =
      let sid : K = elim id [ none ↦ number_key s.next_session_id | some i ↦ i ] in
      (
        record s {
          sessions =
              insert sid (record { info = info; bytes_sent = 0; bytes_received = 0 }) s.sessions;
          next_session_id = elim id [ none ↦ suc s.next_session_id | some _ ↦ s.next_session_id ];
          total_sessions_count = suc s.total_sessions_count;
        },
        sid,
      )

  -- `get(id) || get(Number(id)) || get(String(id))`, with the key that it was found under
  unfoldable pub find_session : K → List (K × TrackedSession I) → Option (K × TrackedSession I)
  find_session id m = elim (lookup id m) [
    | some s ↦ some (id, s)
    | none ↦ elim (lookup (as_number id) m) [
      | some s ↦ some (as_number id, s)
      | none ↦ elim (lookup (as_text id) m) [ some s ↦ some (as_text id, s) | none ↦ none ]
    ]
  ]

  unfoldable pub record_bytes : K → ℕ → ℕ → SessionTracker K I → SessionTracker K I
  record_bytes id sent received s = record s {
    sessions = elim (find_session id s.sessions) [
      | none ↦ s.sessions
      | some found ↦ insert found.0 (add_bytes sent received found.1) s.sessions
    ];
    total_bytes_sent = s.total_bytes_sent + sent;
    total_bytes_received = s.total_bytes_received + received;
  }

  unfoldable pub close_session : K → SessionTracker K I → SessionTracker K I
  close_session id s = elim (find_session id s.sessions) [
    | none ↦ s
    | some _ ↦ record s {
      sessions = delete (as_text id) (delete (as_number id) (delete id s.sessions));
    }
  ]

  -- The ticker, at a time.
  unfoldable pub tick : ℕ → SessionTracker K I → SessionTracker K I
  tick now s =
      if ltb s.last_timestamp now
      then record s {
        current_upload_speed =
            rate (s.total_bytes_sent - s.last_bytes_sent) (now - s.last_timestamp);
        current_download_speed =
            rate (s.total_bytes_received - s.last_bytes_received) (now - s.last_timestamp);
        last_bytes_sent = s.total_bytes_sent;
        last_bytes_received = s.total_bytes_received;
        last_timestamp = now;
      }
      else s

  unfoldable pub tracker_step : TrackerEvent K I → SessionTracker K I → SessionTracker K I
  tracker_step (creates id info) s = (create_session id info s).0
  tracker_step (records id sent received) s = record_bytes id sent received s
  tracker_step (closes id) s = close_session id s
  tracker_step (ticks now) s = tick now s
  tracker_step destroys s = record s { sessions = [] }

  unfoldable pub tracker_run : List (TrackerEvent K I) → SessionTracker K I → SessionTracker K I
  tracker_run [] s = s
  tracker_run (event ∷ events) s = tracker_run events (tracker_step event s)
