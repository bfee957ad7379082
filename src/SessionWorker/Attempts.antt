-- ===== src/SessionWorker/Attempts.antt =====
-- The worker's loop over its attempts and its end.
use iwa_brook_quic.Base.{
  ℕ, zero, suc, ◌+◌, ◌≤◌, ◌<◌, ◌≡◌, ◌⊎◌, refl, ap, leb, either_way, Bool-cases, inl, inr, Bool,
  true, Option, none, some, [], ◌∷◌, ◌++◌, length, All, arith, absurd,
}
use iwa_brook_quic.Retry.{Contact, failure_reply, reply_once}
use iwa_brook_quic.Retry.Once.{IsOnce, reply_once-IsOnce}
use iwa_brook_quic.Dispatcher.Attempts.{earlier}
use iwa_brook_quic.SessionWorker.{
  Worker, new_worker, WorkerAttempt, WorkerNext, goes_on, leaves, cleanup_worker,
  worker_max_attempts, worker_attempt, worker_loop, has_won, report, run_wt_tunnel,
}
use iwa_brook_quic.SessionWorker.Steps.{
  IsUntouched, IsReady, HasLeft, Goes, IsReady-HasLeft, worker_attempt-Goes,
}
use iwa_brook_quic.SessionWorker.Shut.{HasShut, IsShut, Perhaps, worker_loop-IsShut, report-HasShut}

abbrev pub Of : (Worker → Type 0) → Option Worker → Type 0
Of P none = ⊥
Of P (some w) = P w

then_loop :
    (fuel n : ℕ) (env : ℕ → WorkerAttempt) (next : WorkerNext)
    → ((w : Worker) → IsReady (suc n) w → Of HasLeft (worker_loop fuel (suc n) env w))
    → Goes n next
    → Of HasLeft (elim next as (λ _. Option Worker) [
      | goes_on w ↦ worker_loop fuel (suc n) env w
      | leaves w ↦ some w
    ])
then_loop fuel n env (goes_on w) rest h = rest w h
then_loop fuel n env (leaves w) rest h = h

worker_loop-HasLeft :
    (fuel n : ℕ) (env : ℕ → WorkerAttempt) (w : Worker)
    → 4 < fuel + n
    → n ≤ 4
    → IsReady n w
    → Of HasLeft (worker_loop fuel n env w)
unfolding worker_loop
worker_loop-HasLeft zero n env w enough small h = absurd (omega (arith, enough, small))
worker_loop-HasLeft (suc fuel) n env w enough small h =
    elim (Bool-cases (leb n worker_max_attempts)) [
      | inl more ↦
          rw (more, worker_loop)
            (then_loop fuel n env (worker_attempt n (env n) w)
              (λ w' h'.
                worker_loop-HasLeft fuel (suc n) env w' (omega (arith, enough)) (ground arith) h')
              (worker_attempt-Goes n (env n) w (ground arith) h))
      | inr over ↦ rw (over, worker_loop) (IsReady-HasLeft n w small h)
    ]

-- What the worker leaves.
pub record IsDone (w : Worker) : Type 0 where
  pub one_message : length w.done_messages ≡ 1
  pub once : IsOnce w.contact
  pub answered : (has_won w.final_outcome ≡ true) ⊎ (length w.contact.replies ≡ 1)
  pub few : length w.dials ≤ worker_max_attempts
  pub before : All IsUntouched (earlier w.dials)
  pub closed : w.is_closed ≡ true

-- Before `cleanup`.
record IsReported (w : Worker) : Type 0 where
  pub one_message : length w.done_messages ≡ 1
  pub once : IsOnce w.contact
  pub answered : (has_won w.final_outcome ≡ true) ⊎ (length w.contact.replies ≡ 1)
  pub few : length w.dials ≤ worker_max_attempts
  pub before : All IsUntouched (earlier w.dials)

cleanup_worker-IsDone : (w : Worker) → IsReported w → IsDone (cleanup_worker w)
unfolding cleanup_worker
cleanup_worker-IsDone w h =
    either_way IsDone w.is_closed w _
      (λ closed. record {
        one_message = h.one_message;
        once = h.once;
        answered = h.answered;
        few = h.few;
        before = h.before;
        closed = closed;
      })
      (λ _. record {
        one_message = h.one_message;
        once = record { is_counted = h.once.is_counted };
        answered = h.answered;
        few = h.few;
        before = h.before;
        closed = refl;
      })

told : (c : Contact) → IsOnce c → length (reply_once (failure_reply 5) c).replies ≡ 1
unfolding reply_once
told c h = ground (arith, h.is_counted, (reply_once-IsOnce (failure_reply 5) c h).is_counted)

report-IsDone : (w : Worker) → HasLeft w → IsDone (report w)
unfolding report
report-IsDone w h = elim (Bool-cases (has_won w.final_outcome)) [
  | inl won ↦
      rw (won, report)
        (cleanup_worker-IsDone _ (record {
          one_message = said;
          once = h.once;
          answered = inl won;
          few = h.few;
          before = h.before;
        }))
  | inr lost ↦
      rw (lost, report)
        (cleanup_worker-IsDone _ (record {
          one_message = said;
          once = reply_once-IsOnce (failure_reply 5) w.contact h.once;
          answered = inr (told w.contact h.once);
          few = h.few;
          before = h.before;
        }))
]
  where
    said : length (w.done_messages ++ (w.final_outcome ∷ [])) ≡ 1
    said = ap (λ ms. length (ms ++ (w.final_outcome ∷ []))) h.silent

-- The worker is closed while an attempt waits for its session.
abbrev pub ClosesInDial : (ℕ → WorkerAttempt) → Type 0
ClosesInDial env = (n : ℕ) × ((env n).closes_in_dial ≡ true)

-- The worker comes to an end.
abbrev pub Ends : (ℕ → WorkerAttempt) → Option Worker → Type 0
Ends env none = ⊥
Ends env (some w) = IsDone w × HasShut (ClosesInDial env) w

reported :
    (env : ℕ → WorkerAttempt) (result : Option Worker)
    → Of HasLeft result
    → Perhaps (ClosesInDial env) (IsShut (ClosesInDial env)) result
    → Ends env (elim result as (λ _. Option Worker) [ none ↦ none | some w ↦ some (report w) ])
reported env none h shut = h
reported env (some w) h shut = (report-IsDone w h, report-HasShut (ClosesInDial env) w shut)

-- Whatever the attempts meet, closing messages included: the worker ends; it sends one message `DONE`;
-- the client gets at most one answer, and exactly one unless a run succeeded; at most 3 attempts are
-- dialled; each but the last took no data from the client, and if its run resolved, then it received
-- none and did not end in success, in `client_abort` or in `rx_overflow`; and the worker is marked as
-- closed, and the session that it got last is not open any more, unless a closing message comes while
-- an attempt waits for its session.
pub run_wt_tunnel-Ends :
    (env : ℕ → WorkerAttempt) (has_manager : Bool)
    → Ends env (run_wt_tunnel env (new_worker has_manager))
unfolding run_wt_tunnel
run_wt_tunnel-Ends env has_manager =
    reported env _
      (worker_loop-HasLeft (suc worker_max_attempts) 1 env (new_worker has_manager) (omega arith)
        (omega arith)
        (record {
          once = record { is_counted = refl };
          unread = refl;
          untouched = tt;
          few = omega arith;
          silent = refl;
        }))
      (worker_loop-IsShut (ClosesInDial env) (suc worker_max_attempts) 1 env
        (new_worker has_manager) (λ n e. (n, e)) (inl refl))
