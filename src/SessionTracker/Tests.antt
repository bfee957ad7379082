-- ===== src/SessionTracker/Tests.antt =====
-- Runs of the session tracker.
use iwa_brook_quic.Base.{ℕ, ◌≡◌, refl, none, some, List, [], ◌∷◌}
use iwa_brook_quic.Base.Table.{number_eq, lookup, insert}
use iwa_brook_quic.SessionTracker.{
  SessionTracker, new_tracker, TrackerEvent, creates, records, closes, ticks, tracker_step,
  tracker_run, create_session, record_bytes, close_session, tick, find_session,
}
use iwa_brook_quic.SessionTracker.Counts.{IsCounted, tracker_run-IsCounted}

abbrev plain : ℕ → ℕ
plain n = n

abbrev bytes_only : ℕ → ℕ → ℕ
bytes_only bytes ms = bytes

abbrev some_traffic : List (TrackerEvent ℕ ℕ)
some_traffic =
    creates none 443
    ∷ creates (some 9) 80
    ∷ records 1 5 6
    ∷ ticks 500
    ∷ records 9 1 2
    ∷ closes 1
    ∷ []

abbrev tracked : SessionTracker ℕ ℕ
tracked = tracker_run plain plain plain bytes_only some_traffic (new_tracker 0)

sent_in_all : tracked.total_bytes_sent ≡ 6
unfolding tracker_run tracker_step create_session record_bytes close_session tick find_session
    lookup insert
sent_in_all = refl

tracker_run-IsCounted_example : IsCounted tracked
tracker_run-IsCounted_example = tracker_run-IsCounted plain plain plain bytes_only some_traffic 0
