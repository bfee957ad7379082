-- ===== src/SessionWorker/Tests.antt =====
-- Runs of the session worker.
use iwa_brook_quic.Base.{ℕ, zero, suc, true, false, [], ◌∷◌}
use iwa_brook_quic.Tunnel.State.{both_closed}
use iwa_brook_quic.Retry.{
  Dial, unavailable, ran, threw, calls_success, reads_client_data, moves_bytes, TunnelOutcome,
}
use iwa_brook_quic.SessionWorker.{WorkerAttempt, new_worker, run_wt_tunnel}
use iwa_brook_quic.SessionWorker.Attempts.{Ends, run_wt_tunnel-Ends}
use iwa_brook_quic.SessionWorker.Closing.{closed_in_dial}

abbrev good_end : TunnelOutcome
good_end = record { success = true; kind = both_closed; bytes_received = 9 }

abbrev dial_of : ℕ → Dial
dial_of zero = unavailable
dial_of (suc zero) = unavailable
dial_of (suc (suc zero)) = threw []
dial_of (suc (suc (suc n))) =
    ran (calls_success ∷ reads_client_data ∷ moves_bytes 3 9 ∷ []) good_end

abbrev third_time : ℕ → WorkerAttempt
third_time n = record {
  closes_before = false;
  closes_in_dial = false;
  closes_in_run = false;
  session_ends = true;
  dial = dial_of n;
}

run_wt_tunnel-Ends_example : Ends third_time (run_wt_tunnel third_time (new_worker false))
run_wt_tunnel-Ends_example = run_wt_tunnel-Ends third_time false

abbrev at_once : ℕ → WorkerAttempt
at_once n = closed_in_dial false (calls_success ∷ reads_client_data ∷ moves_bytes 0 9 ∷ []) 8
