-- ===== src/Tunnel/Upstream/Accounts.antt =====
-- The accounts of the receive queue in a whole run, with every way in which the run may end.
use iwa_brook_quic.Base.{ℕ, Option, none, List, [], ◌∷◌}
use iwa_brook_quic.Framing.{Aead}
use iwa_brook_quic.Tunnel.State.{Options, start}
use iwa_brook_quic.Tunnel.Queue.{Accounts, cleanup-Sound, check_full_close-Sound, reset-Sound}
use iwa_brook_quic.Tunnel.Accounts.{step-Accounts, start-Balanced}
use iwa_brook_quic.Tunnel.Upstream.{
  RunEvent, receives, resumes, reads, Run, new_run, run_step, run_all, run_from,
}
use iwa_brook_quic.Tunnel.Upstream.Rule.{resume_up-Kept, client_read-Kept}

module _ {K : Type 0} (others : ℕ) (aead : Aead K) (derive : List ℕ → Option K) (options : Options)
    (key : K) (nonce header leftover : List ℕ) where
  run_step-Accounts :
      (event : RunEvent) (r : Run K)
      → Accounts others r.rx
      → Accounts others (run_step aead derive options key nonce header leftover event r).rx
  unfolding run_step
  run_step-Accounts (receives event) r v = step-Accounts others aead derive options event r.rx v
  run_step-Accounts (resumes is_done) r v =
      resume_up-Kept aead derive (Accounts others)
        (λ reason t w. (cleanup-Sound others reason t w).0)
        (λ t w. (check_full_close-Sound others t w).0) (λ d t w. (reset-Sound others d t w).0)
        (λ b c t w. w) (λ t w. w) options key nonce header leftover is_done r.up_phase r v
  run_step-Accounts (reads read) r v =
      client_read-Kept aead derive (Accounts others)
        (λ reason t w. (cleanup-Sound others reason t w).0)
        (λ t w. (check_full_close-Sound others t w).0) (λ d t w. (reset-Sound others d t w).0)
        (λ b c t w. w) (λ t w. w) options key nonce header leftover read r.up_phase r v

  run_all-Accounts :
      (events : List RunEvent) (r : Run K)
      → Accounts others r.rx
      → Accounts others (run_all aead derive options key nonce header leftover events r).rx
  unfolding run_all
  run_all-Accounts [] r v = v
  run_all-Accounts (event ∷ events) r v =
      run_all-Accounts events (run_step aead derive options key nonce header leftover event r)
        (run_step-Accounts event r v)

  -- After any events of a whole run, in either direction and with any end, while the other tunnels'
  -- share of the shared counter stays: what the tunnel counts as queued is what its queue holds while
  -- it lives and 0 once it has ended, it is at most 16 MiB, and the shared counter is the others'
  -- share and this.
  pub run_from-Accounts :
      (events : List RunEvent) (upload_pending : ℕ)
      → Accounts others
          (run_from aead derive options key nonce header leftover events others upload_pending).rx
  run_from-Accounts events upload_pending =
      run_all-Accounts events (new_run nonce others upload_pending)
        (reset-Sound others none (start others) (start-Balanced others)).0
