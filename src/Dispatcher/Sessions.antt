-- ===== src/Dispatcher/Sessions.antt =====
-- The sessions that the clients of the dispatcher share in the tracker, the handlers and the reports of
-- completion, in any interleaving of the clients.
use iwa_brook_quic.Base.{ℕ, ◌≡◌, ◌∙◌, refl, inl, inr, either_way, false, List, [], ◌∷◌, arith, ltb}
use iwa_brook_quic.Base.Table.{Eq, number_eq, has}
use iwa_brook_quic.SessionTracker.{SessionTracker, tick}
use iwa_brook_quic.SessionTracker.Removal.{has-record_bytes}
use iwa_brook_quic.Dispatcher.Clients.{
  Dispatcher, new_dispatcher, ClientEvent, accepts, requests, moves, settles, finishes, ticks,
  stops, client_step, client_run,
}
use iwa_brook_quic.Dispatcher.Totals.{sent_in, received_in, client_run_totals}
use iwa_brook_quic.Dispatcher.Phases.{
  IsTracked, accept_client-IsTracked, finish_client-IsTracked, open_session-IsTracked,
  settle_client-IsTracked,
}

module _ {K I : Type 0} ⦃e : Eq K⦄ (number_key : ℕ → K) (as_number as_text : K → K)
    (rate : ℕ → ℕ → ℕ) (j : K) (h : ℕ) where
  client_step-IsTracked :
      (event : ClientEvent K I) (d : Dispatcher K I)
      → IsTracked j h d
      → IsTracked j h (client_step number_key as_number as_text rate event d)
  unfolding client_step tick has
  client_step-IsTracked (accepts is_online name) d t =
      accept_client-IsTracked number_key as_number as_text rate j h is_online name d t
  client_step-IsTracked (requests name info) d t =
      open_session-IsTracked number_key as_number as_text rate j h name info d t
  client_step-IsTracked (moves id sent received) d t = record {
    served = elim t.served [
      | inl gone ↦
          inl
            (has-record_bytes number_key as_number as_text rate id j sent received d.tracker ∙ gone)
      | inr serves ↦ inr serves
    ];
    counted = t.counted;
    active = t.active;
  }
  client_step-IsTracked (settles name) d t =
      settle_client-IsTracked number_key as_number as_text rate j h name d t
  client_step-IsTracked (finishes name) d t =
      finish_client-IsTracked number_key as_number as_text rate j h name d t
  client_step-IsTracked (ticks now) d t = record {
    served = elim t.served [
      | inl gone ↦ inl (
          either_way (λ (s : SessionTracker K I). has j s.sessions ≡ false)
            (ltb d.tracker.last_timestamp now) _ d.tracker (λ _. gone) (λ _. gone))
      | inr serves ↦ inr serves
    ];
    counted = t.counted;
    active = t.active;
  }
  client_step-IsTracked stops d t = record {
    served = t.served;
    counted = t.counted;
    active = inl refl;
  }

  client_run-kept :
      (events : List (ClientEvent K I)) (d : Dispatcher K I)
      → IsTracked j h d
      → IsTracked j h (client_run number_key as_number as_text rate events d)
  unfolding client_run
  client_run-kept [] d t = t
  client_run-kept (event ∷ events) d t = client_run-kept events _ (client_step-IsTracked event d t)

  -- In any interleaving of clients, from a dispatcher that starts: a session that the tracker still has
  -- is the session of a client that is not done; of every call of `_handleClient`, completion was
  -- reported exactly once if it has returned, and not yet if it has not; an active handler is that of a
  -- call that has not returned; and the totals are the sums of what the tunnels recorded.
  pub client_run-IsTracked :
      (events : List (ClientEvent K I)) (now : ℕ)
      → IsTracked j h (client_run number_key as_number as_text rate events (new_dispatcher now))
        × ((client_run number_key as_number as_text rate events
              (new_dispatcher now)).tracker.total_bytes_sent
            ≡ sent_in events)
        × ((client_run number_key as_number as_text rate events
              (new_dispatcher now)).tracker.total_bytes_received
            ≡ received_in events)
  unfolding has
  client_run-IsTracked events now =
      let (sent, received) =
        client_run_totals number_key as_number as_text rate events (new_dispatcher now) in
      (
        client_run-kept events (new_dispatcher now)
            (record { served = inl refl; counted = refl; active = inl refl }),
        omega (arith, sent),
        omega (arith, received),
      )
