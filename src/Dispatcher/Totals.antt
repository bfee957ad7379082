-- ===== src/Dispatcher/Totals.antt =====
-- The totals of the tracker that the clients share.
use iwa_brook_quic.Base.{
  ℕ, ◌+◌, ◌≡◌, refl, Option-cases, inl, inr, either_way, Bool, List, [], ◌∷◌, arith, ltb,
}
use iwa_brook_quic.Base.Table.{Eq, number_eq, has, lookup}
use iwa_brook_quic.SessionTracker.{
  SessionTracker, create_session, find_session, record_bytes, close_session, tick,
}
use iwa_brook_quic.Dispatcher.Clients.{
  opening, settled, serving, Dispatcher, ClientEvent, accepts, requests, moves, settles, finishes,
  ticks, stops, accept_client, finish_client, open_session, settle_client, client_step, client_run,
}

abbrev pub sent_in : {K I : Type 0} → List (ClientEvent K I) → ℕ
sent_in [] = 0
sent_in (moves id sent received ∷ events) = sent + sent_in events
sent_in (_ ∷ events) = sent_in events

abbrev pub received_in : {K I : Type 0} → List (ClientEvent K I) → ℕ
received_in [] = 0
received_in (moves id sent received ∷ events) = received + received_in events
received_in (_ ∷ events) = received_in events

grown : (a a' b b' : ℕ) → (a' ≡ a) × (b' ≡ b) → (a' ≡ a + 0) × (b' ≡ b + 0)
grown a a' b b' (p, q) = (omega (arith, p), omega (arith, q))

module _ {K I : Type 0} where
  sent_first :
      (event : ClientEvent K I) (events : List (ClientEvent K I))
      → (sent_in (event ∷ events) ≡ sent_in (event ∷ []) + sent_in events)
        × (received_in (event ∷ events) ≡ received_in (event ∷ []) + received_in events)
  sent_first (accepts is_online name) events = (omega arith, omega arith)
  sent_first (requests name info) events = (omega arith, omega arith)
  sent_first (moves id sent received) events = (omega arith, omega arith)
  sent_first (settles name) events = (omega arith, omega arith)
  sent_first (finishes name) events = (omega arith, omega arith)
  sent_first (ticks now) events = (omega arith, omega arith)
  sent_first stops events = (omega arith, omega arith)

  -- Nothing was recorded.
  abbrev IsSame : Dispatcher K I → Dispatcher K I → Type 0
  IsSame d d' =
      (d'.tracker.total_bytes_sent ≡ d.tracker.total_bytes_sent)
      × (d'.tracker.total_bytes_received ≡ d.tracker.total_bytes_received)

  accept_client-IsSame :
      (is_online : Bool) (name : ℕ) (d : Dispatcher K I) → IsSame d (accept_client is_online name d)
  unfolding accept_client
  accept_client-IsSame is_online name d =
      either_way (IsSame d) (has name d.clients) d _ (λ _. (refl, refl))
        (λ _. either_way (IsSame d) is_online _ _ (λ _. (refl, refl)) (λ _. (refl, refl)))

  finish_client-IsSame : (name : ℕ) (d : Dispatcher K I) → IsSame d (finish_client name d)
  unfolding finish_client
  finish_client-IsSame name d = elim (Option-cases (lookup name d.clients)) [
    | inl a ↦ rw (a, finish_client) (refl, refl)
    | inr (opening, a) ↦ rw (a, finish_client) (refl, refl)
    | inr (serving id, a) ↦ rw (a, finish_client) (refl, refl)
    | inr (settled, a) ↦ rw (a, finish_client) (refl, refl)
  ]

module _ {K I : Type 0} ⦃e : Eq K⦄ (number_key : ℕ → K) (as_number as_text : K → K)
    (rate : ℕ → ℕ → ℕ) where
  open_session-IsSame :
      (name : ℕ) (info : I) (d : Dispatcher K I)
      → IsSame d (open_session number_key as_number as_text rate name info d)
  unfolding open_session create_session
  open_session-IsSame name info d = elim (Option-cases (lookup name d.clients)) [
    | inl a ↦ rw (a, open_session) (refl, refl)
    | inr (opening, a) ↦ rw (a, open_session) (refl, refl)
    | inr (serving id, a) ↦ rw (a, open_session) (refl, refl)
    | inr (settled, a) ↦ rw (a, open_session) (refl, refl)
  ]

  closing_totals :
      (id : K) (t : SessionTracker K I)
      → ((close_session number_key as_number as_text rate id t).total_bytes_sent
          ≡ t.total_bytes_sent)
        × ((close_session number_key as_number as_text rate id t).total_bytes_received
            ≡ t.total_bytes_received)
  unfolding close_session
  closing_totals id t =
      elim (Option-cases (find_session number_key as_number as_text rate id t.sessions)) [
        | inl a ↦ rw (a, close_session) (refl, refl)
        | inr (_, a) ↦ rw (a, close_session) (refl, refl)
      ]

  settle_client-IsSame :
      (name : ℕ) (d : Dispatcher K I)
      → IsSame d (settle_client number_key as_number as_text rate name d)
  unfolding settle_client
  settle_client-IsSame name d = elim (Option-cases (lookup name d.clients)) [
    | inl a ↦ rw (a, settle_client) (refl, refl)
    | inr (opening, a) ↦ rw (a, settle_client) (refl, refl)
    | inr (serving id, a) ↦ rw (a, settle_client) (closing_totals id d.tracker)
    | inr (settled, a) ↦ rw (a, settle_client) (refl, refl)
  ]

  step_totals :
      (event : ClientEvent K I) (d : Dispatcher K I)
      → ((client_step number_key as_number as_text rate event d).tracker.total_bytes_sent
          ≡ d.tracker.total_bytes_sent + sent_in (event ∷ []))
        × ((client_step number_key as_number as_text rate event d).tracker.total_bytes_received
            ≡ d.tracker.total_bytes_received + received_in (event ∷ []))
  unfolding client_step record_bytes tick
  step_totals (accepts is_online name) d = grown _ _ _ _ (accept_client-IsSame is_online name d)
  step_totals (requests name info) d = grown _ _ _ _ (open_session-IsSame name info d)
  step_totals (moves id sent received) d = (omega arith, omega arith)
  step_totals (settles name) d = grown _ _ _ _ (settle_client-IsSame name d)
  step_totals (finishes name) d = grown _ _ _ _ (finish_client-IsSame name d)
  step_totals (ticks now) d = grown _ _ _ _ (
      either_way (λ (t : SessionTracker K I). IsSame d (record d { tracker = t }))
        (ltb d.tracker.last_timestamp now) _ d.tracker (λ _. (refl, refl)) (λ _. (refl, refl)))
  step_totals stops d = grown _ _ _ _ (refl, refl)

  pub client_run_totals :
      (events : List (ClientEvent K I)) (d : Dispatcher K I)
      → ((client_run number_key as_number as_text rate events d).tracker.total_bytes_sent
          ≡ d.tracker.total_bytes_sent + sent_in events)
        × ((client_run number_key as_number as_text rate events d).tracker.total_bytes_received
            ≡ d.tracker.total_bytes_received + received_in events)
  unfolding client_run
  client_run_totals [] d = (omega arith, omega arith)
  client_run_totals (event ∷ events) d =
      let (a, b) = step_totals event d in
      let (a', b') =
        client_run_totals events (client_step number_key as_number as_text rate event d) in
      let (p, q) = sent_first event events in (omega (arith, a, a', p), omega (arith, b, b', q))
