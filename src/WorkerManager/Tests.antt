-- ===== src/WorkerManager/Tests.antt =====
-- Runs of the worker manager.
use iwa_brook_quic.Base.{ℕ, ◌≡◌, refl, true, false, List, [], ◌∷◌}
use iwa_brook_quic.Base.Table.{number_eq, has, lookup, insert, delete}
use iwa_brook_quic.SessionTracker.{
  new_tracker, create_session, record_bytes, close_session, find_session,
}
use iwa_brook_quic.WorkerManager.{
  WorkerManager, new_worker_manager, WorkerEvent, spawns, tells_bytes, ends, reaps, worker_run,
  worker_step, spawn_tunnel_worker, terminate_worker, touch, reap,
}
use iwa_brook_quic.WorkerManager.Tracking.{worker_run-has}

abbrev plain : ℕ → ℕ
plain n = n

abbrev bytes_only : ℕ → ℕ → ℕ
bytes_only bytes ms = bytes

-- Of three workers, one ends and one is idle for too long.
abbrev three_workers : List (WorkerEvent ℕ ℕ)
three_workers =
    spawns 1 443 0
    ∷ spawns 2 443 0
    ∷ spawns 3 80 0
    ∷ ends 2
    ∷ tells_bytes 3 3 5 6 100000
    ∷ reaps 150000
    ∷ []

abbrev managed : WorkerManager ℕ ℕ
managed = worker_run plain plain plain bytes_only three_workers (new_worker_manager (new_tracker 0))

third_left : has 3 managed.tracker.sessions ≡ true
unfolding worker_run worker_step spawn_tunnel_worker terminate_worker touch reap create_session
    record_bytes close_session find_session has lookup insert delete
third_left = refl

first_gone : has 1 managed.tracker.sessions ≡ false
unfolding worker_run worker_step spawn_tunnel_worker terminate_worker touch reap create_session
    record_bytes close_session find_session has lookup insert delete
first_gone = refl

worker_run-has_example : (has 3 managed.workers ≡ true) × (managed.is_closed ≡ false)
worker_run-has_example = worker_run-has plain plain plain bytes_only 3 three_workers 0 third_left
