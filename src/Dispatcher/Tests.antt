-- ===== src/Dispatcher/Tests.antt =====
-- Runs of the dispatcher.
use iwa_brook_quic.Base.{ℕ, zero, suc, ◌≡◌, ◌⊎◌, refl, true, false, List, [], ◌∷◌, length}
use iwa_brook_quic.Base.Table.{number_eq, has, lookup, insert, delete}
use iwa_brook_quic.Tunnel.State.{handshake_timeout, both_closed}
use iwa_brook_quic.Retry.{
  Dial, unavailable, ran, calls_success, reads_client_data, moves_bytes, calls_close, calls_failure,
  success_reply, tunnel_calls, tunnel_call, reply_once,
}
use iwa_brook_quic.SessionTracker.{create_session, record_bytes, close_session, find_session, tick}
use iwa_brook_quic.Dispatcher.{
  Attempt, new_client, attempts, attempt_loop, conclude, attempt_once, run_dial, after_run,
  forget_session,
}
use iwa_brook_quic.Dispatcher.Attempts.{IsOrderly, attempts-IsOrderly}
use iwa_brook_quic.Dispatcher.Answers.{wins, attempts-answer}
use iwa_brook_quic.Dispatcher.Clients.{
  Dispatcher, new_dispatcher, ClientEvent, accepts, requests, moves, settles, finishes, ticks,
  client_run, client_step, accept_client, open_session, settle_client, finish_client,
}
use iwa_brook_quic.Dispatcher.Phases.{IsTracked}
use iwa_brook_quic.Dispatcher.Sessions.{client_run-IsTracked}

-- The first attempt finds no session, the second times out, and the third carries some bytes.
abbrev dial_of : ℕ → Dial
dial_of zero = unavailable
dial_of (suc zero) = unavailable
dial_of (suc (suc zero)) =
    ran (calls_failure 5 ∷ [])
      (record { success = false; kind = handshake_timeout; bytes_received = 0 })
dial_of (suc (suc (suc n))) =
    ran (calls_success ∷ reads_client_data ∷ moves_bytes 7 0 ∷ moves_bytes 0 9 ∷ calls_close ∷ [])
      (record { success = true; kind = both_closed; bytes_received = 9 })

abbrev third_time : ℕ → Attempt
third_time n = record { is_running = true; is_online = true; dial = dial_of n }

attempts-IsOrderly_example : IsOrderly 4 (attempts third_time (new_client 4))
attempts-IsOrderly_example = attempts-IsOrderly third_time 4

attempts-answer_example :
    (wins (attempts third_time (new_client 0)).dials ≡ true)
    ⊎ (length (attempts third_time (new_client 0)).contact.replies ≡ 1)
attempts-answer_example = attempts-answer third_time 0 (λ n. refl) (λ n. refl)

abbrev plain : ℕ → ℕ
plain n = n

-- The last attempt has the only reply.
third_reply : (attempts third_time (new_client 0)).contact.replies ≡ success_reply ∷ []
unfolding attempts conclude attempt_loop attempt_once run_dial after_run tunnel_calls tunnel_call
    forget_session reply_once
third_reply = refl

-- Two clients at once: the first one ends while the second one still has its session.
abbrev two_clients : List (ClientEvent ℕ ℕ)
two_clients =
    accepts true 1
    ∷ accepts true 2
    ∷ requests 2 443
    ∷ moves 1 7 0
    ∷ requests 1 80
    ∷ accepts false 3
    ∷ moves 2 1 9
    ∷ settles 1
    ∷ ticks 500
    ∷ moves 1 0 5
    ∷ finishes 1
    ∷ []

abbrev after_two : Dispatcher ℕ ℕ
after_two = client_run plain plain plain (λ bytes ms. bytes) two_clients (new_dispatcher 0)

client_run-IsTracked_example :
    IsTracked 1 2 after_two
    × (after_two.tracker.total_bytes_sent ≡ 8)
    × (after_two.tracker.total_bytes_received ≡ 14)
client_run-IsTracked_example =
    client_run-IsTracked plain plain plain (λ bytes ms. bytes) 1 2 two_clients 0

-- The other client still has its session, and the first one has reported its completion.
still_one :
    (has 1 after_two.tracker.sessions ≡ true)
    × (has 2 after_two.tracker.sessions ≡ false)
    × (after_two.completions ≡ 1 ∷ 3 ∷ [])
unfolding client_run client_step accept_client open_session settle_client finish_client
    create_session record_bytes close_session find_session tick has lookup insert delete
still_one = (refl, refl, refl)
