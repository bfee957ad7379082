-- ===== src/SessionWorker/Steps.antt =====
-- What one attempt of the worker keeps.
use iwa_brook_quic.Base.{
  ℕ, suc, ◌≤◌, ◌<◌, ◌≡◌, ◌∙◌, refl, sym, ap, ltb, ◌==◌, either_way, Bool-cases, inl, inr, Bool,
  true, false, not, ◌&&◌, ◌||◌, List, [], ◌∷◌, length, All, arith,
}
use iwa_brook_quic.Retry.{
  Dial, unavailable, ran, threw, TunnelCall, TunnelOutcome, Contact, is_client_abort,
  is_rx_overflow,
}
use iwa_brook_quic.Retry.Once.{IsOnce, reads_data, tunnel_calls-IsOnce, tunnel_calls-consumed}
use iwa_brook_quic.Dispatcher.Attempts.{earlier}
use iwa_brook_quic.SessionWorker.{
  Worker, WorkerAttempt, WorkerNext, goes_on, leaves, cleanup_worker, cleanup_when,
  worker_max_attempts, worker_is_spent, worker_after_run, run_tunnel, worker_wiring, after_throw,
  worker_dial, worker_attempt,
}

-- The attempt took nothing from the client; and if its run resolved, then nothing was received, and it
-- ended in no success, in no abort of the client and in no overflow. Of a run that threw, the code
-- knows nothing more.
abbrev pub is_untouched : Dial → Bool
is_untouched unavailable = true
is_untouched (ran calls outcome) =
    not (reads_data calls)
    && not outcome.success
    && not (ltb 0 outcome.bytes_received)
    && not (is_client_abort outcome.kind)
    && not (is_rx_overflow outcome.kind)
is_untouched (threw calls) = not (reads_data calls)

abbrev pub IsUntouched : Dial → Type 0
IsUntouched d = is_untouched d ≡ true

-- At the head of the loop.
pub record IsReady (attempt : ℕ) (w : Worker) : Type 0 where
  pub once : IsOnce w.contact
  pub unread : w.contact.client_data_consumed ≡ false
  pub untouched : All IsUntouched w.dials
  pub few : length w.dials < attempt
  pub silent : w.done_messages ≡ []

-- During an attempt, with whether data of the client were taken.
record IsTrying (attempt : ℕ) (dial : Dial) (reads : Bool) (w : Worker) : Type 0 where
  pub once : IsOnce w.contact
  pub read : w.contact.client_data_consumed ≡ reads
  pub before : All IsUntouched (earlier w.dials)
  pub newest : IsUntouched dial → All IsUntouched w.dials
  pub few : length w.dials ≤ attempt
  pub silent : w.done_messages ≡ []

-- When the loop is left.
pub record HasLeft (w : Worker) : Type 0 where
  pub once : IsOnce w.contact
  pub before : All IsUntouched (earlier w.dials)
  pub few : length w.dials ≤ worker_max_attempts
  pub silent : w.done_messages ≡ []

abbrev pub Goes : ℕ → WorkerNext → Type 0
Goes attempt (goes_on w) = IsReady (suc attempt) w
Goes attempt (leaves w) = HasLeft w

cleaned-IsReady :
    (attempt : ℕ) (comes : Bool) (w : Worker)
    → IsReady attempt w
    → IsReady attempt (cleanup_when comes w)
unfolding cleanup_worker
cleaned-IsReady attempt false w h = h
cleaned-IsReady attempt true w h =
    either_way (IsReady attempt) w.is_closed w _ (λ _. h)
      (λ _. record {
        once = record { is_counted = h.once.is_counted };
        unread = h.unread;
        untouched = h.untouched;
        few = h.few;
        silent = h.silent;
      })

cleaned-IsTrying :
    (attempt : ℕ) (dial : Dial) (reads comes : Bool) (w : Worker)
    → IsTrying attempt dial reads w
    → IsTrying attempt dial reads (cleanup_when comes w)
unfolding cleanup_worker
cleaned-IsTrying attempt dial reads false w h = h
cleaned-IsTrying attempt dial reads true w h =
    either_way (IsTrying attempt dial reads) w.is_closed w _ (λ _. h)
      (λ _. record {
        once = record { is_counted = h.once.is_counted };
        read = h.read;
        before = h.before;
        newest = h.newest;
        few = h.few;
        silent = h.silent;
      })

run_tunnel-IsTrying :
    (attempt : ℕ) (dial : Dial) (closes ends : Bool) (calls : List TunnelCall) (w : Worker)
    → IsTrying attempt dial false w
    → IsTrying attempt dial (reads_data calls) (run_tunnel attempt closes ends calls w)
unfolding run_tunnel
run_tunnel-IsTrying attempt dial closes ends calls w h =
    cleaned-IsTrying attempt dial (reads_data calls) closes _ (record {
      once = record {
        is_counted =
            (tunnel_calls-IsOnce (worker_wiring attempt) calls _
              (record { is_counted = h.once.is_counted })).is_counted;
      };
      read =
          tunnel_calls-consumed (worker_wiring attempt) calls _
          ∙ ap (λ b. b || reads_data calls) h.read;
      before = h.before;
      newest = h.newest;
      few = h.few;
      silent = h.silent;
    })

spent_or_IsUntouched :
    (calls : List TunnelCall) (outcome : TunnelOutcome) (c : Contact)
    → c.client_data_consumed ≡ reads_data calls
    → outcome.success ≡ false
    → worker_is_spent outcome c ≡ false
    → (c.client_data_consumed ≡ false) × IsUntouched (ran calls outcome)
spent_or_IsUntouched calls outcome c read failed open_end =
    let unread : c.client_data_consumed ≡ false = ground arith in
    let unread' : reads_data calls ≡ false = sym read ∙ unread in (unread, ground arith)

worker_after_run-Goes :
    (attempt : ℕ) (calls : List TunnelCall) (outcome : TunnelOutcome) (w : Worker)
    → attempt ≤ worker_max_attempts
    → IsTrying attempt (ran calls outcome) (reads_data calls) w
    → Goes attempt (worker_after_run outcome w)
unfolding worker_after_run
worker_after_run-Goes attempt calls outcome w small h = elim (Bool-cases outcome.success) [
  | inl won ↦
      rw (won, worker_after_run)
        (record { once = h.once; before = h.before; few = omega (arith, h.few); silent = h.silent })
  | inr failed ↦ elim (Bool-cases (worker_is_spent outcome w.contact)) [
    | inl spent ↦
        rw (failed, spent, worker_after_run)
          (record {
            once = record { is_counted = h.once.is_counted };
            before = h.before;
            few = omega (arith, h.few);
            silent = h.silent;
          })
    | inr free ↦
        let (unread, untouched) = spent_or_IsUntouched calls outcome w.contact h.read failed free in
        rw (failed, free, worker_after_run)
          (record {
            once = record { is_counted = h.once.is_counted };
            unread = unread;
            untouched = h.newest untouched;
            few = omega (arith, h.few);
            silent = h.silent;
          })
  ]
]

IsUntouched-throw :
    (calls : List TunnelCall) (consumed replied last : Bool)
    → consumed ≡ reads_data calls
    → (consumed || replied || last) ≡ false
    → (consumed ≡ false) × IsUntouched (threw calls)
IsUntouched-throw calls consumed replied last read free = (ground arith, ground arith)

after_throw-Goes :
    (attempt : ℕ) (calls : List TunnelCall) (w : Worker)
    → attempt ≤ worker_max_attempts
    → IsTrying attempt (threw calls) (reads_data calls) w
    → Goes attempt (after_throw attempt w)
unfolding after_throw
after_throw-Goes attempt calls w small h =
    either_way (Goes attempt)
      (w.contact.client_data_consumed
        || w.contact.proxy_replied
        || (attempt == worker_max_attempts))
      (leaves (record w { has_last_error = true })) (goes_on (record w { has_last_error = true }))
      (λ _. record {
        once = h.once;
        before = h.before;
        few = omega (arith, h.few);
        silent = h.silent;
      })
      (λ free.
        let (unread, untouched) = IsUntouched-throw calls _ w.contact.proxy_replied _ h.read free in
        record {
          once = h.once;
          unread = unread;
          untouched = h.newest untouched;
          few = omega (arith, h.few);
          silent = h.silent;
        })

worker_dial-Goes :
    (attempt : ℕ) (closes ends : Bool) (dial : Dial) (w : Worker)
    → attempt ≤ worker_max_attempts
    → IsTrying attempt dial false w
    → Goes attempt (worker_dial attempt closes ends dial w)
unfolding worker_dial
worker_dial-Goes attempt closes ends unavailable w small h =
    either_way (Goes attempt) (attempt == worker_max_attempts) (leaves _) (goes_on _)
      (λ _. record {
        once = h.once;
        before = h.before;
        few = omega (arith, h.few);
        silent = h.silent;
      })
      (λ _. record {
        once = h.once;
        unread = h.read;
        untouched = h.newest refl;
        few = omega (arith, h.few);
        silent = h.silent;
      })
worker_dial-Goes attempt closes ends (ran calls outcome) w small h =
    worker_after_run-Goes attempt calls outcome _ small
      (run_tunnel-IsTrying attempt (ran calls outcome) closes ends calls w h)
worker_dial-Goes attempt closes ends (threw calls) w small h =
    after_throw-Goes attempt calls _ small
      (run_tunnel-IsTrying attempt (threw calls) closes ends calls w h)

pub IsReady-HasLeft : (attempt : ℕ) (w : Worker) → attempt ≤ 4 → IsReady attempt w → HasLeft w
IsReady-HasLeft attempt w small h = record {
  once = h.once;
  before = earlier-IsUntouched w.dials h.untouched;
  few = omega (arith, h.few);
  silent = h.silent;
}
  where
    earlier-IsUntouched : (ds : List Dial) → All IsUntouched ds → All IsUntouched (earlier ds)
    earlier-IsUntouched [] h = tt
    earlier-IsUntouched (d ∷ ds) h = h.1

pub worker_attempt-Goes :
    (attempt : ℕ) (a : WorkerAttempt) (w : Worker)
    → attempt ≤ worker_max_attempts
    → IsReady attempt w
    → Goes attempt (worker_attempt attempt a w)
unfolding worker_attempt
worker_attempt-Goes attempt a w small h =
    let w' = cleanup_when a.closes_before w in
    let ready : IsReady attempt w' = cleaned-IsReady attempt a.closes_before w h in
    either_way (Goes attempt) w'.is_closed (leaves w') _
      (λ _. IsReady-HasLeft attempt w' (omega (arith, small)) ready)
      (λ _. worker_dial-Goes attempt a.closes_in_run a.session_ends a.dial _ small (
        cleaned-IsTrying attempt a.dial false a.closes_in_dial _ (record {
          once = ready.once;
          read = ready.unread;
          before = ready.untouched;
          newest = λ u. (u, ready.untouched);
          few = omega (arith, ready.few);
          silent = ready.silent;
        })))
