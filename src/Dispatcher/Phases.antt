-- ===== src/Dispatcher/Phases.antt =====
-- What a client does when it is accepted, gets its session, and ends.
use iwa_brook_quic.Base.{
  ℕ, ◌+◌, ◌≡◌, ◌⊎◌, ◌∙◌, sym, ap, Bool-cases, Option-cases, inl, inr, if◌then◌else◌, Bool, true,
  false, none, some, List, [], ◌∷◌, arith, ◌==◌,
}
use iwa_brook_quic.Base.Table.{
  Eq, number_eq, same, insert, has, lookup, has-insert, has-delete, has-lookup, same-has,
  lookup-insert_same,
}
use iwa_brook_quic.SessionTracker.{SessionTracker, create_session, close_session}
use iwa_brook_quic.SessionTracker.Removal.{has-close_session}
use iwa_brook_quic.Dispatcher.Clients.{
  ClientPhase, opening, settled, serving, Dispatcher, accept_client, finish_client, open_session,
  settle_client,
}
use iwa_brook_quic.Dispatcher.Served.{
  IsServed, not_both, kept_elsewhere, inserted_elsewhere, deleted_elsewhere, still_there,
  unserved_phase, settled_elsewhere,
}

abbrev pub times_of : ℕ → List ℕ → ℕ
times_of name [] = 0
times_of name (n ∷ names) = (if n == name then 1 else 0) + times_of name names

-- `h` is a call of `_handleClient`, and `j` an id.
pub record IsTracked {K I : Type 0} ⦃e : Eq K⦄ (j : K) (h : ℕ) (d : Dispatcher K I) : Type 0 where
  pub served : (has j d.tracker.sessions ≡ false) ⊎ IsServed j d.clients
  pub counted :
      times_of h d.completions + (if has h d.clients then 1 else 0) ≡ times_of h d.accepted
  pub active : (has h d.active_handlers ≡ false) ⊎ (has h d.clients ≡ true)

module _ {K I : Type 0} ⦃e : Eq K⦄ (number_key : ℕ → K) (as_number as_text : K → K)
    (rate : ℕ → ℕ → ℕ) (j : K) (h : ℕ) where
  -- A client goes on to another phase, and the tracker changes with it.
  next_phase-IsTracked :
      (name : ℕ) (before after : ClientPhase K) (tracker : SessionTracker K I) (d : Dispatcher K I)
      → lookup name d.clients ≡ some before
      → (has j tracker.sessions ≡ false) ⊎ IsServed j (insert name after d.clients)
      → IsTracked j h d
      → IsTracked j h (record d { tracker = tracker; clients = insert name after d.clients })
  next_phase-IsTracked name before after tracker d a served t =
      let same_flight = still_there j name h after d.clients (has-lookup name d.clients before a) in
      record {
        served = served;
        counted = ap (λ b. times_of h d.completions + (if b then 1 else 0)) same_flight ∙ t.counted;
        active = elim t.active [ inl idle ↦ inl idle | inr busy ↦ inr (same_flight ∙ busy) ];
      }

  pub finish_client-IsTracked :
      (name : ℕ) (d : Dispatcher K I) → IsTracked j h d → IsTracked j h (finish_client name d)
  unfolding finish_client
  finish_client-IsTracked name d t = elim (Option-cases (lookup name d.clients)) [
    | inl a ↦ rw (a, finish_client) t
    | inr (opening, a) ↦ rw (a, finish_client) t
    | inr (serving id, a) ↦ rw (a, finish_client) t
    | inr (settled, a) ↦
        rw (a, finish_client)
          (record {
            served = elim t.served [
              | inl gone ↦ inl gone
              | inr serves ↦ inr (
                  kept_elsewhere j name d.clients _ (λ n. deleted_elsewhere j name n d.clients)
                    (unserved_phase j settled name d.clients a (λ id eq. cc)) serves)
            ];
            counted = ground (
              arith,
              has-lookup name d.clients settled a,
              has-delete name h d.clients,
              same-has name h d.clients,
              t.counted,
            );
            active = elim (Bool-cases (name == h)) [
              | inl it ↦ inl (
                  has-delete name h d.active_handlers
                  ∙ ap (λ b. if b then false else has h d.active_handlers) it)
              | inr other ↦ elim t.active [
                | inl idle ↦ inl (
                    has-delete name h d.active_handlers
                    ∙ ap (λ b. if b then false else has h d.active_handlers) other
                    ∙ idle)
                | inr busy ↦ inr (
                    has-delete name h d.clients
                    ∙ ap (λ b. if b then false else has h d.clients) other
                    ∙ busy)
              ]
            ];
          })
  ]

  pub accept_client-IsTracked :
      (is_online : Bool) (name : ℕ) (d : Dispatcher K I)
      → IsTracked j h d
      → IsTracked j h (accept_client is_online name d)
  unfolding accept_client
  accept_client-IsTracked is_online name d t = elim (Bool-cases (has name d.clients)) [
    | inl used ↦ rw (used, accept_client) t
    | inr free ↦ elim (Bool-cases is_online) [
      | inr off ↦
          rw (free, off, accept_client)
            (record { served = t.served; counted = omega (arith, t.counted); active = t.active })
      | inl on ↦
          rw (free, on, accept_client)
            (record {
              served = elim t.served [
                | inl gone ↦ inl gone
                | inr serves ↦ inr (
                    kept_elsewhere j name d.clients _
                      (λ n. inserted_elsewhere j name n opening d.clients)
                      (λ id there. not_both j _ (has-lookup name d.clients (serving id) there) free)
                      serves)
              ];
              counted = ground (
                arith,
                free,
                has-insert name h opening d.clients,
                same-has name h d.clients,
                t.counted,
              );
              active = elim (Bool-cases (name == h)) [
                | inl it ↦ inr (
                    has-insert name h opening d.clients
                    ∙ ap (λ b. if b then true else has h d.clients) it)
                | inr other ↦ elim t.active [
                  | inl idle ↦ inl (
                      has-insert name h tt d.active_handlers
                      ∙ ap (λ b. if b then true else has h d.active_handlers) other
                      ∙ idle)
                  | inr busy ↦ inr (
                      has-insert name h opening d.clients
                      ∙ ap (λ b. if b then true else has h d.clients) other
                      ∙ busy)
                ]
              ];
            })
    ]
  ]

  created :
      (info : I) (t : SessionTracker K I)
      → has j (create_session number_key as_number as_text rate none info t).0.sessions ≡ (
          if same (create_session number_key as_number as_text rate none info t).1 j
          then true
          else has j t.sessions)
  unfolding create_session
  created info t = has-insert (number_key t.next_session_id) j _ t.sessions

  pub open_session-IsTracked :
      (name : ℕ) (info : I) (d : Dispatcher K I)
      → IsTracked j h d
      → IsTracked j h (open_session number_key as_number as_text rate name info d)
  unfolding open_session
  open_session-IsTracked name info d t = elim (Option-cases (lookup name d.clients)) [
    | inl a ↦ rw (a, open_session) t
    | inr (settled, a) ↦ rw (a, open_session) t
    | inr (serving id, a) ↦ rw (a, open_session) t
    | inr (opening, a) ↦
        let opened = create_session number_key as_number as_text rate none info d.tracker in
        let id = opened.1 in
        rw (a, open_session)
          (next_phase-IsTracked name opening (serving id) opened.0 d a
            (elim (Bool-cases (same id j)) [
              | inl it ↦ inr (name, id, lookup-insert_same name (serving id) d.clients, it)
              | inr other ↦ elim t.served [
                | inl gone ↦ inl (
                    created info d.tracker
                    ∙ ap (λ b. if b then true else has j d.tracker.sessions) other
                    ∙ gone)
                | inr serves ↦ inr (
                    kept_elsewhere j name d.clients _
                      (λ n. inserted_elsewhere j name n (serving id) d.clients)
                      (unserved_phase j opening name d.clients a (λ k eq. cc)) serves)
              ]
            ])
            t)
  ]

  pub settle_client-IsTracked :
      (name : ℕ) (d : Dispatcher K I)
      → IsTracked j h d
      → IsTracked j h (settle_client number_key as_number as_text rate name d)
  unfolding settle_client
  settle_client-IsTracked name d t = elim (Option-cases (lookup name d.clients)) [
    | inl a ↦ rw (a, settle_client) t
    | inr (settled, a) ↦ rw (a, settle_client) t
    | inr (opening, a) ↦
        rw (a, settle_client)
          (next_phase-IsTracked name opening settled d.tracker d a
            (elim t.served [
              | inl gone ↦ inl gone
              | inr serves ↦ inr (settled_elsewhere j name opening d.clients a (λ k eq. cc) serves)
            ])
            t)
    | inr (serving id, a) ↦
        let closed = close_session number_key as_number as_text rate id d.tracker in
        rw (a, settle_client)
          (next_phase-IsTracked name (serving id) settled closed d a
            (elim (Bool-cases (has j closed.sessions)) [
              | inr gone ↦ inl gone
              | inl still ↦
                  let (other, there) =
                    has-close_session number_key as_number as_text rate id j d.tracker still in
                  elim t.served [
                    | inl gone ↦ not_both j _ there gone
                    | inr serves ↦ inr (
                        settled_elsewhere j name (serving id) d.clients a
                          (λ k eq. ap (λ i. same i j) (sym (serving_inj id k eq)) ∙ other) serves)
                  ]
            ])
            t)
  ]
    where
      serving_inj : (i k : K) → ◌≡◌ {A = ClientPhase K} (serving i) (serving k) → i ≡ k
      serving_inj i k eq = cc
