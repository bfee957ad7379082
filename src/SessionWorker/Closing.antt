-- ===== src/SessionWorker/Closing.antt =====
-- A message `CLOSE` that comes while the worker waits for its session.
use iwa_brook_quic.Base.{ℕ, suc, ◌≡◌, Bool, true, false, List}
use iwa_brook_quic.Tunnel.State.{idle_timeout}
use iwa_brook_quic.Retry.{ran, TunnelCall, TunnelOutcome}
use iwa_brook_quic.SessionWorker.{Worker, WorkerAttempt}

-- The worker is closed already, and its session is open.
record IsLeftOpen (w : Worker) : Type 0 where
  pub closed : w.is_closed ≡ true
  pub left_open : w.contact.is_session_open ≡ true

-- The tunnel has received bytes, and it ends as neither side sends any more; the session's stream has
-- not ended.
abbrev pub idle_end : ℕ → TunnelOutcome
idle_end n = record { success = true; kind = idle_timeout; bytes_received = suc n }

-- The worker is closed while it waits for its session.
abbrev pub closed_in_dial : Bool → List TunnelCall → ℕ → WorkerAttempt
closed_in_dial closes calls n = record {
  closes_before = false;
  closes_in_dial = true;
  closes_in_run = closes;
  session_ends = false;
  dial = ran calls (idle_end n);
}
