-- ===== src/Dispatcher/Answers.antt =====
-- The answer to a client in the end.
use iwa_brook_quic.Base.{
  ℕ, suc, ◌≡◌, ◌⊎◌, ◌∙◌, refl, ap, ◌==◌, either_way, Bool-cases, Option-cases, inl, inr, Bool, true,
  false, some, List, [], ◌∷◌, length, arith, absurd,
}
use iwa_brook_quic.Retry.{
  Dial, unavailable, ran, threw, TunnelOutcome, Contact, ProxyReply, failure_reply, reply_once,
}
use iwa_brook_quic.Retry.Once.{flag_count}
use iwa_brook_quic.Dispatcher.Rule.{OfNext, OfEnd, attempt_loop_rule}
use iwa_brook_quic.Dispatcher.Attempts.{attempts-IsOrderly}
use iwa_brook_quic.Dispatcher.{
  TunnelError, Attempt, Client, new_client, max_attempts, Next, again, leaves, throws,
  forget_session, is_spent, after_run, run_dial, attempt_once, LoopEnd, finished, thrown,
  out_of_fuel, conclude, attempts,
}

-- The last attempt succeeded.
abbrev pub wins : List Dial → Bool
wins [] = false
wins (ran calls outcome ∷ dials) = outcome.success
wins (unavailable ∷ dials) = false
wins (threw calls ∷ dials) = false

abbrev HasFailed : Client → Type 0
HasFailed c = (e : TunnelError) × (c.tunnel_error ≡ some e)

abbrev HasResult : Client → Type 0
HasResult c = HasFailed c ⊎ (wins c.dials ≡ true)

abbrev Settles : Next → Type 0
Settles = OfNext HasFailed HasResult (λ _. ⊥)

after_run-Settles :
    (attempt : ℕ) (outcome : TunnelOutcome) (c : Client)
    → wins c.dials ≡ outcome.success
    → Settles (after_run attempt outcome c)
unfolding after_run
after_run-Settles attempt outcome c e = elim (Bool-cases outcome.success) [
  | inl won ↦ rw (won, after_run) (inr (e ∙ won))
  | inr failed ↦
      rw (failed, after_run)
        (either_way Settles (is_spent outcome c.contact) (leaves _) (again _) (λ _. inl (_, refl))
          (λ _. (_, refl)))
]

run_dial-Settles :
    (attempt : ℕ) (d : Dial) (c : Client) → Settles (run_dial attempt d (forget_session d c))
unfolding run_dial forget_session
run_dial-Settles attempt unavailable c =
    either_way Settles (attempt == max_attempts) (leaves _) (again _) (λ _. inl (_, refl))
      (λ _. (_, refl))
run_dial-Settles attempt (ran calls outcome) c = after_run-Settles attempt outcome _ refl
run_dial-Settles attempt (threw calls) c = inl (_, refl)

attempt_once-Settles :
    (attempt : ℕ) (a : Attempt) (c : Client)
    → a.is_running ≡ true
    → a.is_online ≡ true
    → Settles (attempt_once attempt a c)
unfolding attempt_once
attempt_once-Settles attempt a c running online =
    rw (running, online, attempt_once) (run_dial-Settles attempt a.dial c)

-- At the head of the loop, an attempt has failed before, or it is the first.
abbrev IsAtHead : ℕ → Client → Type 0
IsAtHead n c = (n ≡ 1) ⊎ HasFailed c

head_failed : (n : ℕ) (c : Client) → n ≡ 4 → IsAtHead n c → HasResult c
head_failed n c four (inl one) = absurd (omega (arith, four, one))
head_failed n c four (inr failed) = inl failed

later : (n : ℕ) (next : Next) → Settles next → OfNext (IsAtHead (suc n)) HasResult (λ _. ⊥) next
later n (again c) h = inr h
later n (leaves c) h = h
later n (throws c) h = h

replied : (reply : ProxyReply) (c : Contact) → (reply_once reply c).proxy_replied ≡ true
unfolding reply_once
replied reply c = ground arith

abbrev IsTold : Client → Type 0
IsTold c = (wins c.dials ≡ true) ⊎ (c.contact.proxy_replied ≡ true)

conclude-IsTold : (e : LoopEnd) → OfEnd HasResult (λ _. ⊥) e → IsTold (conclude e)
unfolding conclude
conclude-IsTold (finished c) (inl (error, e)) =
    rw (e, conclude) (inr (replied (failure_reply 5) c.contact))
conclude-IsTold (finished c) (inr won) = elim (Option-cases c.tunnel_error) [
  | inl e ↦ rw (e, conclude) (inl won)
  | inr (_, e) ↦ rw (e, conclude) (inl won)
]
conclude-IsTold (thrown c) h = elim h [ ]
conclude-IsTold (out_of_fuel c) h = elim h [ ]

-- While the dispatcher runs and the network is up, the last attempt for a client succeeds, or the
-- client has got exactly one answer.
pub attempts-answer :
    (env : ℕ → Attempt) (retries : ℕ)
    → ((n : ℕ) → (env n).is_running ≡ true)
    → ((n : ℕ) → (env n).is_online ≡ true)
    → (wins (attempts env (new_client retries)).dials ≡ true)
      ⊎ (length (attempts env (new_client retries)).contact.replies ≡ 1)
unfolding attempts
attempts-answer env retries running online = elim told [
  | inl won ↦ inl won
  | inr told_once ↦ inr ((attempts-IsOrderly env retries).once.is_counted ∙ ap flag_count told_once)
]
  where
    told : IsTold (attempts env (new_client retries))
    told = conclude-IsTold _ (
        attempt_loop_rule IsAtHead HasResult (λ _. ⊥) env
          (λ n c small h. later n _ (attempt_once-Settles n (env n) c (running n) (online n)))
          (λ n c over h. head_failed n c over h) (suc max_attempts) 1 (new_client retries)
          (omega arith) (omega arith) (inl refl))
