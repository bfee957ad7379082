-- ===== src/SessionTracker/Removal.antt =====
-- What closing a session removes, and what the other operations leave.
use iwa_brook_quic.Base.{
  ℕ, ◌≡◌, refl, if◌then◌else◌, Option-cases, inl, inr, true, false, Option, none, some, List, arith,
}
use iwa_brook_quic.SessionTracker.Counts.{found_there}
use iwa_brook_quic.Base.Table.{
  same-has, has-delete_before, has-insert, has-lookup, has, Eq, same, lookup, delete, has-none,
}
use iwa_brook_quic.SessionTracker.{
  TrackedSession, SessionTracker, create_session, find_session, record_bytes, close_session,
  add_bytes,
}

module _ {K I : Type 0} ⦃e : Eq K⦄ (number_key : ℕ → K) (as_number as_text : K → K)
    (rate : ℕ → ℕ → ℕ) where
  not_found :
      (id : K) (m : List (K × TrackedSession I))
      → find_session number_key as_number as_text rate id m ≡ none
      → (lookup id m ≡ none) × (lookup (as_number id) m ≡ none) × (lookup (as_text id) m ≡ none)
  unfolding find_session
  not_found id m h = elim (Option-cases (lookup id m)) [
    | inr (s, a) ↦ cc_none s (rw (a, find_session) at h)
    | inl a ↦ elim (Option-cases (lookup (as_number id) m)) [
      | inr (s, b) ↦ cc_none s (rw (a, b, find_session) at h)
      | inl b ↦ elim (Option-cases (lookup (as_text id) m)) [
        | inr (s, c) ↦ cc_none s (rw (a, b, c, find_session) at h)
        | inl c ↦ (a, b, c)
      ]
    ]
  ]
    where
      cc_none :
          {k : K} (s : TrackedSession I)
          → ◌≡◌ {A = Option (K × TrackedSession I)} (some (k, s)) none
          → (lookup id m ≡ none) × (lookup (as_number id) m ≡ none) × (lookup (as_text id) m ≡ none)
      cc_none s eq = cc

  -- A session that is still there was there before, under another id.
  pub has-close_session :
      (id j : K) (s : SessionTracker K I)
      → has j (close_session number_key as_number as_text rate id s).sessions ≡ true
      → (same id j ≡ false) × (has j s.sessions ≡ true)
  unfolding close_session
  has-close_session id j s h =
      elim (Option-cases (find_session number_key as_number as_text rate id s.sessions)) [
        | inl a ↦
            let (x, y, z) = not_found id s.sessions a in
            let h' : has j s.sessions ≡ true = rw (a, close_session) at h in
            (ground (arith, same-has id j s.sessions, has-none id s.sessions x), h')
        | inr (_, a) ↦
            let h' : has j (delete (as_text id) (delete (as_number id) (delete id s.sessions)))
                ≡ true =
              rw (a, close_session) at h in
            has-delete_before (as_text id) (as_number id) id j s.sessions h'
      ]

  pub has-create_session :
      (id j : K) (info : I) (s : SessionTracker K I)
      → has j (create_session number_key as_number as_text rate (some id) info s).0.sessions
        ≡ (if same id j then true else has j s.sessions)
  unfolding create_session
  has-create_session id j info s = has-insert id j _ s.sessions

  pub has-record_bytes :
      (id j : K) (sent received : ℕ) (s : SessionTracker K I)
      → has j (record_bytes number_key as_number as_text rate id sent received s).sessions
        ≡ has j s.sessions
  unfolding record_bytes
  has-record_bytes id j sent received s =
      elim (Option-cases (find_session number_key as_number as_text rate id s.sessions)) [
        | inl a ↦ rw (a, record_bytes) refl
        | inr ((k, v), a) ↦
            let there =
              has-lookup k s.sessions v
                (found_there number_key as_number as_text rate id k v s.sessions a) in
            rw (a, record_bytes)
              (ground (
                arith,
                there,
                has-insert k j (add_bytes sent received v) s.sessions,
                same-has k j s.sessions,
              ))
      ]
