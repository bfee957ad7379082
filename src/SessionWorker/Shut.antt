-- ===== src/SessionWorker/Shut.antt =====
-- What becomes of the session of a worker, once the worker is closed.
use iwa_brook_quic.Base.{
  ℕ, zero, suc, ◌≡◌, ◌⊎◌, ◌∙◌, refl, sym, leb, ◌==◌, either_way, Bool-cases, inl, inr, Bool, true,
  false, Option, none, some, arith,
}
use iwa_brook_quic.Retry.{
  Dial, unavailable, ran, threw, TunnelOutcome, Contact, ProxyReply, failure_reply, reply_once,
}
use iwa_brook_quic.SessionWorker.{
  Worker, WorkerAttempt, WorkerNext, goes_on, leaves, cleanup_worker, cleanup_when, run_tunnel,
  worker_max_attempts, worker_is_spent, worker_after_run, after_throw, worker_dial, worker_attempt,
  worker_loop, has_won, report,
}

pub reply_once-open :
    (reply : ProxyReply) (c : Contact) → (reply_once reply c).is_session_open ≡ c.is_session_open
unfolding reply_once
reply_once-open reply c = ground arith

not_both : {P : Type 0} → true ≡ false → P
not_both e = cc

-- `P` is what may leave the session open.
module _ (P : Type 0) where
  abbrev pub HasShut : Worker → Type 0
  HasShut w = (w.contact.is_session_open ≡ false) ⊎ P

  abbrev pub IsShut : Worker → Type 0
  IsShut w = (w.is_closed ≡ false) ⊎ HasShut w

  cleanup_worker-HasShut : (w : Worker) → IsShut w → HasShut (cleanup_worker w)
  unfolding cleanup_worker
  cleanup_worker-HasShut w h =
      either_way HasShut w.is_closed w _
        (λ closed. elim h [ inl live ↦ not_both (sym closed ∙ live) | inr shut ↦ shut ])
        (λ _. inl refl)

  cleanup_when-IsShut : (comes : Bool) (w : Worker) → IsShut w → IsShut (cleanup_when comes w)
  cleanup_when-IsShut true w h = inr (cleanup_worker-HasShut w h)
  cleanup_when-IsShut false w h = h

  abbrev pub NextShut : WorkerNext → Type 0
  NextShut (goes_on w) = IsShut w
  NextShut (leaves w) = IsShut w

  worker_after_run-NextShut :
      (outcome : TunnelOutcome) (w : Worker) → IsShut w → NextShut (worker_after_run outcome w)
  unfolding worker_after_run
  worker_after_run-NextShut outcome w h =
      either_way NextShut outcome.success _ _ (λ _. h)
        (λ _.
          either_way NextShut (worker_is_spent outcome w.contact) _ _ (λ _. inr (inl refl))
            (λ _. inr (inl refl)))

  worker_dial-NextShut :
      (attempt : ℕ) (closes ends : Bool) (dial : Dial) (w : Worker)
      → (w.is_closed ≡ false) ⊎ P
      → NextShut (worker_dial attempt closes ends dial w)
  unfolding worker_dial run_tunnel after_throw
  worker_dial-NextShut attempt closes ends unavailable w h =
      either_way NextShut (attempt == worker_max_attempts) (leaves _) (goes_on _) (λ _. kept w h)
        (λ _. kept w h)
    where
      kept : (w : Worker) → (w.is_closed ≡ false) ⊎ P → IsShut w
      kept w (inl live) = inl live
      kept w (inr p) = inr (inr p)
  worker_dial-NextShut attempt closes ends (ran calls outcome) w h =
      worker_after_run-NextShut outcome _
        (cleanup_when-IsShut closes _ (elim h [ inl live ↦ inl live | inr p ↦ inr (inr p) ]))
  worker_dial-NextShut attempt closes ends (threw calls) w h =
      let shut =
        cleanup_when-IsShut closes _ (elim h [ inl live ↦ inl live | inr p ↦ inr (inr p) ]) in
      either_way NextShut _ (leaves _) (goes_on _) (λ _. shut) (λ _. shut)

  worker_attempt-NextShut :
      (attempt : ℕ) (a : WorkerAttempt) (w : Worker)
      → (a.closes_in_dial ≡ true → P)
      → IsShut w
      → NextShut (worker_attempt attempt a w)
  unfolding worker_attempt
  worker_attempt-NextShut attempt a w p h =
      let w' = cleanup_when a.closes_before w in
      either_way NextShut w'.is_closed (leaves w') _ (λ _. cleanup_when-IsShut a.closes_before w h)
        (λ live.
          worker_dial-NextShut attempt a.closes_in_run a.session_ends a.dial _
            (go a.closes_in_dial p _ live))
    where
      go :
          (comes : Bool)
          → (comes ≡ true → P)
          → (w : Worker) → w.is_closed ≡ false
          → ((cleanup_when comes w).is_closed ≡ false) ⊎ P
      go true p w live = inr (p refl)
      go false p w live = inl live

  -- Of a worker, where there is one.
  abbrev pub Perhaps : (Worker → Type 0) → Option Worker → Type 0
  Perhaps Q none = Unit
  Perhaps Q (some w) = Q w

  looped :
      (fuel n : ℕ) (env : ℕ → WorkerAttempt) (next : WorkerNext)
      → ((w : Worker) → IsShut w → Perhaps IsShut (worker_loop fuel (suc n) env w))
      → NextShut next
      → Perhaps IsShut (elim next as (λ _. Option Worker) [
        | goes_on w ↦ worker_loop fuel (suc n) env w
        | leaves w ↦ some w
      ])
  looped fuel n env (goes_on w) rest h = rest w h
  looped fuel n env (leaves w) rest h = h

  pub worker_loop-IsShut :
      (fuel n : ℕ) (env : ℕ → WorkerAttempt) (w : Worker)
      → ((k : ℕ) → (env k).closes_in_dial ≡ true → P)
      → IsShut w
      → Perhaps IsShut (worker_loop fuel n env w)
  unfolding worker_loop
  worker_loop-IsShut zero n env w p h = tt
  worker_loop-IsShut (suc fuel) n env w p h = elim (Bool-cases (leb n worker_max_attempts)) [
    | inl more ↦
        rw (more, worker_loop)
          (looped fuel n env (worker_attempt n (env n) w)
            (λ w' h'. worker_loop-IsShut fuel (suc n) env w' p h')
            (worker_attempt-NextShut n (env n) w (p n) h))
    | inr over ↦ rw (over, worker_loop) h
  ]

  pub report-HasShut : (w : Worker) → IsShut w → HasShut (report w)
  unfolding report
  report-HasShut w h = cleanup_worker-HasShut _ (elim h [
    | inl live ↦ inl live
    | inr (inr p) ↦ inr (inr p)
    | inr (inl shut) ↦ inr (
        inl (
          either_way (λ (c : Contact). c.is_session_open ≡ false) (has_won w.final_outcome)
            w.contact (reply_once (failure_reply 5) w.contact) (λ _. shut)
            (λ _. reply_once-open (failure_reply 5) w.contact ∙ shut)))
  ])
