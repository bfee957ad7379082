-- ===== src/SessionTracker/Counts.antt =====
-- The totals of the tracker, and the differences of which the rates are taken.
use iwa_brook_quic.Base.{
  ℕ, ◌+◌, ◌≤◌, ◌≡◌, ltb, either_way, Bool-cases, Option-cases, inl, inr, Option, none, some, List,
  [], ◌∷◌, length, arith,
}
use iwa_brook_quic.Base.Table.{
  length-insert, length-insert_present, length-delete, has-lookup, some_inj, Eq, same, lookup,
  insert, delete,
}
use iwa_brook_quic.SessionTracker.{
  TrackedSession, SessionTracker, new_tracker, TrackerEvent, creates, records, closes, ticks,
  destroys, create_session, find_session, record_bytes, close_session, tick, tracker_step,
  tracker_run, add_bytes,
}

module _ {K I : Type 0} where
  abbrev pub sum_sent : List (K × TrackedSession I) → ℕ
  sum_sent [] = 0
  sum_sent ((k, s) ∷ m) = s.bytes_sent + sum_sent m

  abbrev pub sum_received : List (K × TrackedSession I) → ℕ
  sum_received [] = 0
  sum_received ((k, s) ∷ m) = s.bytes_received + sum_received m

module _ {K I : Type 0} ⦃e : Eq K⦄ where
  sum_delete :
      (j : K) (m : List (K × TrackedSession I))
      → (sum_sent (delete j m) ≤ sum_sent m) × (sum_received (delete j m) ≤ sum_received m)
  unfolding delete
  sum_delete j [] = (omega arith, omega arith)
  sum_delete j ((k, s) ∷ m) = let (a, b) = sum_delete j m in (ground (arith, a), ground (arith, b))

  -- An entry that takes the place of another, or of none.
  sum_insert :
      (j : K) (w : TrackedSession I) (m : List (K × TrackedSession I))
      → (sum_sent (insert j w m) ≤ w.bytes_sent + sum_sent m)
        × (sum_received (insert j w m) ≤ w.bytes_received + sum_received m)
  unfolding insert
  sum_insert j w [] = (omega arith, omega arith)
  sum_insert j w ((k, s) ∷ m) =
      let (a, b) = sum_insert j w m in (ground (arith, a), ground (arith, b))

  sum_add :
      (j : K) (v : TrackedSession I) (sent received : ℕ) (m : List (K × TrackedSession I))
      → lookup j m ≡ some v
      → (sum_sent (insert j (add_bytes sent received v) m) ≡ sum_sent m + sent)
        × (sum_received (insert j (add_bytes sent received v) m) ≡ sum_received m + received)
  unfolding insert lookup
  sum_add j v sent received [] h = cc
  sum_add j v sent received ((k, s) ∷ m) h = elim (Bool-cases (same k j)) [
    | inl here ↦
        let same_entry = some_inj s v (rw (here, lookup) at h) in
        rw (here, insert, same_entry) (omega arith, omega arith)
    | inr behind ↦
        let (a, b) = sum_add j v sent received m (rw (behind, lookup) at h) in
        rw (behind, insert) (omega (arith, a), omega (arith, b))
  ]

  length-add :
      (j : K) (v w : TrackedSession I) (m : List (K × TrackedSession I))
      → lookup j m ≡ some v
      → length (insert j w m) ≡ length m
  length-add j v w m h = length-insert_present j w m (has-lookup j m v h)

pub record IsCounted {K I : Type 0} (s : SessionTracker K I) : Type 0 where
  pub sent : sum_sent s.sessions ≤ s.total_bytes_sent
  pub received : sum_received s.sessions ≤ s.total_bytes_received
  pub last_sent : s.last_bytes_sent ≤ s.total_bytes_sent
  pub last_received : s.last_bytes_received ≤ s.total_bytes_received
  pub opened : length s.sessions ≤ s.total_sessions_count

module _ {K I : Type 0} ⦃e : Eq K⦄ (number_key : ℕ → K) (as_number as_text : K → K)
    (rate : ℕ → ℕ → ℕ) where
  pub found_there :
      (id k : K) (v : TrackedSession I) (m : List (K × TrackedSession I))
      → find_session number_key as_number as_text rate id m ≡ some (k, v)
      → lookup k m ≡ some v
  unfolding find_session
  found_there id k v m h = elim (Option-cases (lookup id m)) [
    | inr (s, a) ↦ same_one id s a (rw (a, find_session) at h)
    | inl a ↦ elim (Option-cases (lookup (as_number id) m)) [
      | inr (s, b) ↦ same_one (as_number id) s b (rw (a, b, find_session) at h)
      | inl b ↦ elim (Option-cases (lookup (as_text id) m)) [
        | inr (s, c) ↦ same_one (as_text id) s c (rw (a, b, c, find_session) at h)
        | inl c ↦ absurd_none (rw (a, b, c, find_session) at h)
      ]
    ]
  ]
    where
      same_one :
          (i : K) (s : TrackedSession I)
          → lookup i m ≡ some s
          → ◌≡◌ {A = Option (K × TrackedSession I)} (some (i, s)) (some (k, v))
          → lookup k m ≡ some v
      same_one i s a eq = cc

      absurd_none : ◌≡◌ {A = Option (K × TrackedSession I)} none (some (k, v)) → lookup k m ≡ some v
      absurd_none eq = cc

  recorded :
      (id : K) (sent received : ℕ) (s : SessionTracker K I)
      → IsCounted s
      → IsCounted (record_bytes number_key as_number as_text rate id sent received s)
  unfolding record_bytes
  recorded id sent received s h =
      elim (Option-cases (find_session number_key as_number as_text rate id s.sessions)) [
        | inl a ↦
            rw (a, record_bytes)
              (record {
                sent = omega (arith, h.sent);
                received = omega (arith, h.received);
                last_sent = omega (arith, h.last_sent);
                last_received = omega (arith, h.last_received);
                opened = h.opened;
              })
        | inr ((k, v), a) ↦
            let there = found_there id k v s.sessions a in
            let (x, y) = sum_add k v sent received s.sessions there in
            rw (a, record_bytes)
              (record {
                sent = omega (arith, h.sent, x);
                received = omega (arith, h.received, y);
                last_sent = omega (arith, h.last_sent);
                last_received = omega (arith, h.last_received);
                opened =
                    omega (
                      arith,
                      h.opened,
                      length-add k v (add_bytes sent received v) s.sessions there,
                    );
              })
      ]

  dropped :
      (m : List (K × TrackedSession I)) (s : SessionTracker K I)
      → sum_sent m ≤ sum_sent s.sessions
      → sum_received m ≤ sum_received s.sessions
      → length m ≤ length s.sessions
      → IsCounted s
      → IsCounted (record s { sessions = m })
  dropped m s a b c h = record {
    sent = omega (arith, a, h.sent);
    received = omega (arith, b, h.received);
    last_sent = h.last_sent;
    last_received = h.last_received;
    opened = omega (arith, c, h.opened);
  }

  deleted :
      (k : K) (s : SessionTracker K I)
      → IsCounted s
      → IsCounted (record s { sessions = delete k s.sessions })
  deleted k s h =
      let (a, b) = sum_delete k s.sessions in
      dropped (delete k s.sessions) s a b (length-delete k s.sessions) h

  closed :
      (id : K) (s : SessionTracker K I)
      → IsCounted s
      → IsCounted (close_session number_key as_number as_text rate id s)
  unfolding close_session
  closed id s h =
      elim (Option-cases (find_session number_key as_number as_text rate id s.sessions)) [
        | inl a ↦ rw (a, close_session) h
        | inr (_, a) ↦
            rw (a, close_session)
              (deleted (as_text id) _ (deleted (as_number id) _ (deleted id s h)))
      ]

  created :
      (id : Option K) (info : I) (s : SessionTracker K I)
      → IsCounted s
      → IsCounted (create_session number_key as_number as_text rate id info s).0
  unfolding create_session
  created id info s h =
      let fresh : TrackedSession I = record { info = info; bytes_sent = 0; bytes_received = 0 } in
      let sid : K = elim id [ none ↦ number_key s.next_session_id | some i ↦ i ] in
      let (a, b) = sum_insert sid fresh s.sessions in
      record {
        sent = omega (arith, a, h.sent);
        received = omega (arith, b, h.received);
        last_sent = h.last_sent;
        last_received = h.last_received;
        opened = omega (arith, h.opened, length-insert sid fresh s.sessions);
      }

  tracker_step-IsCounted :
      (event : TrackerEvent K I) (s : SessionTracker K I)
      → IsCounted s
      → IsCounted (tracker_step number_key as_number as_text rate event s)
  unfolding tracker_step tick
  tracker_step-IsCounted (creates id info) s h = created id info s h
  tracker_step-IsCounted (records id sent received) s h = recorded id sent received s h
  tracker_step-IsCounted (closes id) s h = closed id s h
  tracker_step-IsCounted (ticks now) s h =
      either_way IsCounted (ltb s.last_timestamp now) _ s
        (λ _. record {
          sent = h.sent;
          received = h.received;
          last_sent = omega arith;
          last_received = omega arith;
          opened = h.opened;
        })
        (λ _. h)
  tracker_step-IsCounted destroys s h = dropped [] s (omega arith) (omega arith) (omega arith) h

  run-IsCounted :
      (events : List (TrackerEvent K I)) (s : SessionTracker K I)
      → IsCounted s
      → IsCounted (tracker_run number_key as_number as_text rate events s)
  unfolding tracker_run
  run-IsCounted [] s h = h
  run-IsCounted (event ∷ events) s h = run-IsCounted events _ (tracker_step-IsCounted event s h)

  -- After any calls: the totals cover the bytes of the open sessions and what they were at the last
  -- tick, so that the differences of which the rates are taken are exact; and no more sessions are open
  -- than were created.
  pub tracker_run-IsCounted :
      (events : List (TrackerEvent K I)) (now : ℕ)
      → IsCounted (tracker_run number_key as_number as_text rate events (new_tracker now))
  tracker_run-IsCounted events now = run-IsCounted events (new_tracker now) (record {
    sent = omega arith;
    received = omega arith;
    last_sent = omega arith;
    last_received = omega arith;
    opened = omega arith;
  })
