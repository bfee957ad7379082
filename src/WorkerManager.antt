-- ===== src/WorkerManager.antt =====
-- brook-quicclient/src/workers/wt-worker-manager.js: the workers, one for each client, and the session
-- tracker that it tells of them. A message is taken to come from the worker that the map has for its
-- session; times are in milliseconds.
pub mod Tracking
mod Tests
use iwa_brook_quic.Base.{
  ℕ, suc, ◌+◌, ltb, if◌then◌else◌, Bool, true, false, Option, none, some, List, [], ◌∷◌, length,
}
use iwa_brook_quic.Base.Table.{Eq, lookup, insert, delete, has}
use iwa_brook_quic.SessionTracker.{SessionTracker, create_session, record_bytes, close_session}

-- `workers` has the time of each worker's last activity, `terminated` counts the workers that were
-- told to close, and `refused` the ports that were told so.
pub record WorkerManager (K I : Type 0) : Type 0 where
  pub workers : List (K × ℕ)
  pub tracker : SessionTracker K I
  pub is_closed : Bool
  pub terminated : ℕ
  pub refused : ℕ

abbrev pub new_worker_manager : {K I : Type 0} → SessionTracker K I → WorkerManager K I
new_worker_manager tracker = record {
  workers = [];
  tracker = tracker;
  is_closed = false;
  terminated = 0;
  refused = 0;
}

abbrev pub max_stall_ms : ℕ
max_stall_ms = 120000

-- What happens to the manager, with the time where it counts: `spawnTunnelWorker`, a worker's messages
-- `LOG`, `BYTES` and `DONE` or its error, the reaper, `flushStalledSessions` and `close`.
pub data WorkerEvent (K I : Type 0) : Type 0 where
  spawns : K → I → ℕ → WorkerEvent K I
  logs : K → ℕ → WorkerEvent K I
  tells_bytes : K → K → ℕ → ℕ → ℕ → WorkerEvent K I
  ends : K → WorkerEvent K I
  reaps : ℕ → WorkerEvent K I
  flushes shuts : WorkerEvent K I

module _ {K I : Type 0} ⦃e : Eq K⦄ (number_key : ℕ → K) (as_number as_text : K → K)
    (rate : ℕ → ℕ → ℕ) where
  unfoldable pub terminate_worker : K → WorkerManager K I → WorkerManager K I
  terminate_worker id m =
      if has id m.workers
      then record m {
        workers = delete id m.workers;
        tracker = close_session number_key as_number as_text rate id m.tracker;
        terminated = suc m.terminated;
      }
      else m

  unfoldable pub spawn_tunnel_worker : K → I → ℕ → WorkerManager K I → WorkerManager K I
  spawn_tunnel_worker id info now m =
      if m.is_closed then record m { refused = suc m.refused } else record m {
        tracker = (create_session number_key as_number as_text rate (some id) info m.tracker).0;
        workers = insert id now m.workers;
      }

  -- `entry.lastActivity = Date.now()`
  unfoldable pub touch : K → ℕ → WorkerManager K I → WorkerManager K I
  touch id now m = if has id m.workers then record m { workers = insert id now m.workers } else m

  -- The workers of a list that have been idle for too long.
  unfoldable pub reap : ℕ → List (K × ℕ) → WorkerManager K I → WorkerManager K I
  reap now [] m = m
  reap now ((id, last) ∷ entries) m =
      reap now entries (if ltb (last + max_stall_ms) now then terminate_worker id m else m)

  unfoldable pub flush_stalled_sessions : List (K × ℕ) → WorkerManager K I → WorkerManager K I
  flush_stalled_sessions [] m = m
  flush_stalled_sessions ((id, last) ∷ entries) m =
      flush_stalled_sessions entries (terminate_worker id m)

  unfoldable pub close_sessions : List (K × ℕ) → SessionTracker K I → SessionTracker K I
  close_sessions [] t = t
  close_sessions ((id, last) ∷ entries) t =
      close_sessions entries (close_session number_key as_number as_text rate id t)

  unfoldable pub close_manager : WorkerManager K I → WorkerManager K I
  close_manager m = record m {
    is_closed = true;
    tracker = close_sessions m.workers m.tracker;
    terminated = m.terminated + length m.workers;
    workers = [];
  }

  unfoldable pub worker_step : WorkerEvent K I → WorkerManager K I → WorkerManager K I
  worker_step (spawns id info now) m = spawn_tunnel_worker id info now m
  worker_step (logs id now) m = touch id now m
  worker_step (tells_bytes id of sent received now) m =
      let m' = touch id now m in
      record m' {
        tracker = record_bytes number_key as_number as_text rate of sent received m'.tracker;
      }
  worker_step (ends id) m =
      terminate_worker id
        (record m { tracker = close_session number_key as_number as_text rate id m.tracker })
  worker_step (reaps now) m = if m.is_closed then m else reap now m.workers m
  worker_step flushes m = flush_stalled_sessions m.workers m
  worker_step shuts m = close_manager m

  unfoldable pub worker_run : List (WorkerEvent K I) → WorkerManager K I → WorkerManager K I
  worker_run [] m = m
  worker_run (event ∷ events) m = worker_run events (worker_step event m)
