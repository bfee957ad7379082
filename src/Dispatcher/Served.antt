-- ===== src/Dispatcher/Served.antt =====
-- The client that serves a session, as other clients come and go.
use iwa_brook_quic.Base.{
  ℕ, ◌≡◌, ◌∙◌, sym, ap, Bool-cases, inl, inr, if◌then◌else◌, Bool, true, false, none, some, List,
  arith,
}
use iwa_brook_quic.Base.Table.{
  Eq, number_eq, same, insert, delete, has, lookup, lookup-insert, lookup-delete, has-insert,
  same-has, same-lookup, some_inj,
}
use iwa_brook_quic.Dispatcher.Clients.{ClientPhase, settled, serving}

-- A client that is not done serves a session with the id `j`.
abbrev pub IsServed : {K : Type 0} ⦃e : Eq K⦄ → K → List (ℕ × ClientPhase K) → Type 0
IsServed {K} j clients =
    (name : ℕ) × (id : K) × (lookup name clients ≡ some (serving id)) × (same id j ≡ true)

module _ {K : Type 0} ⦃e : Eq K⦄ (j : K) where
  pub not_both : {A : Type 0} → (b : Bool) → b ≡ true → b ≡ false → A
  not_both b is_true is_false = contradiction (sym is_true ∙ is_false)
    where
      contradiction : {P : Type 0} → true ≡ false → P
      contradiction eq = cc

  -- Where only the entry of a client that does not serve `j` is changed.
  pub kept_elsewhere :
      (name : ℕ) (before after : List (ℕ × ClientPhase K))
      → ((n : ℕ) → same name n ≡ false → lookup n after ≡ lookup n before)
      → ((id : K) → lookup name before ≡ some (serving id) → same id j ≡ false)
      → IsServed j before
      → IsServed j after
  kept_elsewhere name before after others unserved (n, id, there, e) =
      elim (Bool-cases (same name n)) [
        | inr other ↦ (n, id, others n other ∙ there, e)
        | inl it ↦ not_both _ e (unserved id (same-lookup name n before it ∙ there))
      ]

  pub inserted_elsewhere :
      (name n : ℕ) (phase : ClientPhase K) (clients : List (ℕ × ClientPhase K))
      → same name n ≡ false
      → lookup n (insert name phase clients) ≡ lookup n clients
  inserted_elsewhere name n phase clients other =
      lookup-insert name n phase clients
      ∙ ap (λ b. if b then some phase else lookup n clients) other

  pub deleted_elsewhere :
      (name n : ℕ) (clients : List (ℕ × ClientPhase K))
      → same name n ≡ false
      → lookup n (delete name clients) ≡ lookup n clients
  deleted_elsewhere name n clients other =
      lookup-delete name n clients ∙ ap (λ b. if b then none else lookup n clients) other

  pub still_there :
      (name h : ℕ) (phase : ClientPhase K) (clients : List (ℕ × ClientPhase K))
      → has name clients ≡ true
      → has h (insert name phase clients) ≡ has h clients
  still_there name h phase clients there =
      ground (arith, there, has-insert name h phase clients, same-has name h clients)

  pub unserved_phase :
      (before : ClientPhase K) (name : ℕ) (clients : List (ℕ × ClientPhase K))
      → lookup name clients ≡ some before
      → ((id : K) → before ≡ serving id → same id j ≡ false)
      → (id : K) → lookup name clients ≡ some (serving id)
      → same id j ≡ false
  unserved_phase before name clients a other id b =
      other id (some_inj before (serving id) (sym a ∙ b))

  pub settled_elsewhere :
      (name : ℕ) (before : ClientPhase K) (clients : List (ℕ × ClientPhase K))
      → lookup name clients ≡ some before
      → ((id : K) → before ≡ serving id → same id j ≡ false)
      → IsServed j clients
      → IsServed j (insert name settled clients)
  settled_elsewhere name before clients a other serves =
      kept_elsewhere name clients _ (λ n. inserted_elsewhere name n settled clients)
        (unserved_phase before name clients a other) serves
