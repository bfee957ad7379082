-- ===== src/Dispatcher/Attempts.antt =====
-- The attempts for a client: their number, which are followed by another, and the answers.
use iwa_brook_quic.Base.{
  ℕ, suc, ◌+◌, ◌≤◌, ◌<◌, ◌≡◌, ◌∙◌, refl, sym, ap, ltb, ◌==◌, if◌then◌else◌, either_way, Bool-cases,
  Option-cases, inl, inr, Bool, true, false, not, ◌&&◌, ◌||◌, List, [], ◌∷◌, length, All, arith,
}
use iwa_brook_quic.Retry.{
  Dial, unavailable, ran, threw, TunnelCall, TunnelOutcome, Contact, tunnel_calls, is_client_abort,
  is_rx_overflow,
}
use iwa_brook_quic.Retry.Once.{
  IsOnce, reads_data, tunnel_calls-IsOnce, tunnel_calls-consumed, reply_once-IsOnce,
}
use iwa_brook_quic.Dispatcher.Rule.{OfNext, OfEnd, attempt_loop_rule}
use iwa_brook_quic.Dispatcher.{
  Attempt, Client, new_client, max_attempts, Next, again, leaves, throws, forget_session, is_spent,
  after_run, wiring, run_dial, attempt_once, LoopEnd, finished, thrown, out_of_fuel, conclude,
  attempts,
}

-- The attempt left the client as it was: no byte was taken from it and none came for it.
abbrev pub is_quiet : Dial → Bool
is_quiet unavailable = true
is_quiet (ran calls outcome) =
    not (reads_data calls)
    && not outcome.success
    && not (ltb 0 outcome.bytes_received)
    && not (is_client_abort outcome.kind)
    && not (is_rx_overflow outcome.kind)
is_quiet (threw calls) = false

abbrev pub IsQuiet : Dial → Type 0
IsQuiet d = is_quiet d ≡ true

abbrev pub earlier : List Dial → List Dial
earlier [] = []
earlier (d ∷ ds) = ds

module _ (start : ℕ) where
  -- At the head of the loop.
  record IsReady (attempt : ℕ) (c : Client) : Type 0 where
    pub once : IsOnce c.contact
    pub unread : c.contact.client_data_consumed ≡ false
    pub shut : c.contact.is_session_open ≡ false
    pub kept : c.abandoned ≡ 0
    pub quiet : All IsQuiet c.dials
    pub few : length c.dials < attempt
    pub counted : suc c.total_retries ≤ start + attempt
    pub capped : c.total_retries ≤ start + 2

  -- After the run of an attempt's tunnel.
  record HasRun (attempt : ℕ) (calls : List TunnelCall) (outcome : TunnelOutcome) (c : Client)
      : Type 0 where
    pub once : IsOnce c.contact
    pub read : c.contact.client_data_consumed ≡ reads_data calls
    pub kept : c.abandoned ≡ 0
    pub quiet : All IsQuiet (earlier c.dials)
    pub newest : IsQuiet (ran calls outcome) → All IsQuiet c.dials
    pub few : length c.dials ≤ attempt
    pub counted : suc c.total_retries ≤ start + attempt
    pub capped : c.total_retries ≤ start + 2

  -- Once the loop has ended.
  pub record IsOrderly (c : Client) : Type 0 where
    pub once : IsOnce c.contact
    pub kept : c.abandoned ≡ 0
    pub quiet : All IsQuiet (earlier c.dials)
    pub few : length c.dials ≤ max_attempts
    pub capped : c.total_retries ≤ start + 2

  abbrev Goes : ℕ → Next → Type 0
  Goes attempt = OfNext (IsReady (suc attempt)) IsOrderly IsOrderly

  spent_or_IsQuiet :
      (calls : List TunnelCall) (outcome : TunnelOutcome) (c : Contact)
      → c.client_data_consumed ≡ reads_data calls
      → outcome.success ≡ false
      → is_spent outcome c ≡ false
      → (c.client_data_consumed ≡ false) × IsQuiet (ran calls outcome)
  spent_or_IsQuiet calls outcome c read failed open_end =
      let unread : c.client_data_consumed ≡ false = ground arith in
      let unread' : reads_data calls ≡ false = sym read ∙ unread in (unread, ground arith)

  more_retries :
      (attempt retries : ℕ)
      → suc retries ≤ start + attempt
      → retries ≤ start + 2
      → (suc (if ltb attempt 3 then suc retries else retries) ≤ start + suc attempt)
        × ((if ltb attempt 3 then suc retries else retries) ≤ start + 2)
  more_retries attempt retries h h' = (ground arith, ground arith)

  after_run-Goes :
      (attempt : ℕ) (calls : List TunnelCall) (outcome : TunnelOutcome) (c : Client)
      → attempt ≤ max_attempts
      → HasRun attempt calls outcome c
      → Goes attempt (after_run attempt outcome c)
  unfolding after_run
  after_run-Goes attempt calls outcome c small h = elim (Bool-cases outcome.success) [
    | inl won ↦
        rw (won, after_run)
          (record {
            once = h.once;
            kept = h.kept;
            quiet = h.quiet;
            few = omega (arith, h.few);
            capped = h.capped;
          })
    | inr failed ↦ elim (Bool-cases (is_spent outcome c.contact)) [
      | inl spent ↦
          rw (failed, spent, after_run)
            (record {
              once = record { is_counted = h.once.is_counted };
              kept = h.kept;
              quiet = h.quiet;
              few = omega (arith, h.few);
              capped = h.capped;
            })
      | inr free ↦
          let (unread, is_quiet') = spent_or_IsQuiet calls outcome c.contact h.read failed free in
          let (counted', capped') = more_retries attempt c.total_retries h.counted h.capped in
          rw (failed, free, after_run)
            (record {
              once = record { is_counted = h.once.is_counted };
              unread = unread;
              shut = refl;
              kept = h.kept;
              quiet = h.newest is_quiet';
              few = omega (arith, h.few);
              counted = counted';
              capped = capped';
            })
    ]
  ]

  earlier-IsQuiet : (ds : List Dial) → All IsQuiet ds → All IsQuiet (earlier ds)
  earlier-IsQuiet [] h = tt
  earlier-IsQuiet (d ∷ ds) h = h.1

  IsReady-IsOrderly : (n : ℕ) (c : Client) → n ≤ 4 → IsReady n c → IsOrderly c
  IsReady-IsOrderly n c small h = record {
    once = h.once;
    kept = h.kept;
    quiet = earlier-IsQuiet c.dials h.quiet;
    few = omega (arith, h.few);
    capped = h.capped;
  }

  nothing_left :
      (c : Client)
      → c.contact.is_session_open ≡ false
      → c.abandoned ≡ 0
      → (if c.contact.is_session_open then suc c.abandoned else c.abandoned) ≡ 0
  nothing_left c shut kept = ground arith

  run_dial-Goes :
      (attempt : ℕ) (d : Dial) (c : Client)
      → attempt ≤ max_attempts
      → IsReady attempt c
      → Goes attempt (run_dial attempt d (forget_session d c))
  unfolding run_dial forget_session
  run_dial-Goes attempt unavailable c small h =
      either_way (Goes attempt) (attempt == max_attempts) (leaves _) (again _)
        (λ _. record {
          once = record { is_counted = h.once.is_counted };
          kept = nothing_left c h.shut h.kept;
          quiet = h.quiet;
          few = omega (arith, h.few);
          capped = h.capped;
        })
        (λ _. record {
          once = record { is_counted = h.once.is_counted };
          unread = h.unread;
          shut = refl;
          kept = nothing_left c h.shut h.kept;
          quiet = (refl, h.quiet);
          few = omega (arith, h.few);
          counted = omega (arith, h.counted);
          capped = h.capped;
        })
  run_dial-Goes attempt (ran calls outcome) c small h =
      after_run-Goes attempt calls outcome _ small (record {
        once =
            tunnel_calls-IsOnce (wiring attempt) calls _
              (record { is_counted = h.once.is_counted });
        read =
            tunnel_calls-consumed (wiring attempt) calls _
            ∙ ap (λ b. b || reads_data calls) h.unread;
        kept = nothing_left c h.shut h.kept;
        quiet = h.quiet;
        newest = λ q. (q, h.quiet);
        few = omega (arith, h.few);
        counted = h.counted;
        capped = h.capped;
      })
  run_dial-Goes attempt (threw calls) c small h =
      let spoken : IsOnce
          (tunnel_calls (wiring attempt) calls (record c.contact { is_session_open = true })) =
        tunnel_calls-IsOnce (wiring attempt) calls _ (record { is_counted = h.once.is_counted }) in
      record {
        once = record { is_counted = spoken.is_counted };
        kept = nothing_left c h.shut h.kept;
        quiet = h.quiet;
        few = omega (arith, h.few);
        capped = h.capped;
      }

  attempt_once-Goes :
      (attempt : ℕ) (a : Attempt) (c : Client)
      → attempt ≤ max_attempts
      → IsReady attempt c
      → Goes attempt (attempt_once attempt a c)
  unfolding attempt_once
  attempt_once-Goes attempt a c small h =
      let stop = IsReady-IsOrderly attempt c (omega (arith, small)) h in
      either_way (Goes attempt) (not a.is_running) (throws c) _ (λ _. stop)
        (λ _.
          either_way (Goes attempt) (not a.is_online) (throws c) _ (λ _. stop)
            (λ _. run_dial-Goes attempt a.dial c small h))

  conclude-IsOrderly : (e : LoopEnd) → OfEnd IsOrderly IsOrderly e → IsOrderly (conclude e)
  unfolding conclude
  conclude-IsOrderly (finished c) h = elim (Option-cases c.tunnel_error) [
    | inl e ↦ rw (e, conclude) h
    | inr (_, e) ↦
        rw (e, conclude)
          (record {
            once = reply_once-IsOnce _ c.contact h.once;
            kept = h.kept;
            quiet = h.quiet;
            few = h.few;
            capped = h.capped;
          })
  ]
  conclude-IsOrderly (thrown c) h = h
  conclude-IsOrderly (out_of_fuel c) h = elim h [ ]

-- Whatever happens to the attempts for a client: it gets at most one answer; at most 3 attempts are
-- dialled, and at most 2 are counted as retries; each but the last took no data from the client,
-- received none, and did not end in success, in `client_abort` or in `rx_overflow`; and no attempt
-- leaves an open session behind for the next.
pub attempts-IsOrderly :
    (env : ℕ → Attempt) (retries : ℕ) → IsOrderly retries (attempts env (new_client retries))
unfolding attempts
attempts-IsOrderly env retries = conclude-IsOrderly retries _ (
    attempt_loop_rule (IsReady retries) (IsOrderly retries) (IsOrderly retries) env
      (λ n c small h. attempt_once-Goes retries n (env n) c small h)
      (λ n c over h. IsReady-IsOrderly retries n c (omega (arith, over)) h) (suc max_attempts) 1
      (new_client retries) (omega arith) (omega arith)
      (record {
        once = record { is_counted = refl };
        unread = refl;
        shut = refl;
        kept = refl;
        quiet = tt;
        few = omega arith;
        counted = omega arith;
        capped = omega arith;
      }))
