-- ===== src/WorkerManager/Tracking.antt =====
-- The sessions of the tracker and the workers of the manager.
use iwa_brook_quic.Base.{
  ℕ, ◌+◌, ◌≡◌, ◌∙◌, refl, sym, ap, ltb, if◌then◌else◌, either_way, Bool-cases, inl, inr, true,
  false, List, [], ◌∷◌,
}
use iwa_brook_quic.Base.Table.{Eq, same, has, has-insert, has-delete}
use iwa_brook_quic.SessionTracker.{SessionTracker, close_session, new_tracker}
use iwa_brook_quic.SessionTracker.Removal.{has-close_session, has-create_session, has-record_bytes}
use iwa_brook_quic.WorkerManager.{
  WorkerManager, new_worker_manager, WorkerEvent, spawns, logs, tells_bytes, ends, reaps, flushes,
  shuts, terminate_worker, spawn_tunnel_worker, touch, reap, flush_stalled_sessions, close_sessions,
  close_manager, worker_step, worker_run, max_stall_ms,
}

absurd : {A : Type 0} → false ≡ true → A
absurd e = cc

not_empty : {A K : Type 0} ⦃e : Eq K⦄ (id : K) (ws : List (K × ℕ)) → ws ≡ [] → has id ws ≡ true → A
unfolding has
not_empty id ws e h = absurd (sym (ap (has id) e) ∙ h)

module _ {K I : Type 0} ⦃e : Eq K⦄ (number_key : ℕ → K) (as_number as_text : K → K)
    (rate : ℕ → ℕ → ℕ) (j : K) where
  -- The session of this id has a worker.
  record IsStaffed (m : WorkerManager K I) : Type 0 where
    pub staffed : has j m.tracker.sessions ≡ true → has j m.workers ≡ true
    pub shut : m.is_closed ≡ true → m.workers ≡ []

  closing :
      (id : K) (m : WorkerManager K I)
      → IsStaffed m
      → IsStaffed
          (record m { tracker = close_session number_key as_number as_text rate id m.tracker })
  closing id m h = record {
    staffed = λ there.
        h.staffed (has-close_session number_key as_number as_text rate id j m.tracker there).1;
    shut = h.shut;
  }

  terminate_worker-IsStaffed :
      (id : K) (m : WorkerManager K I)
      → IsStaffed m
      → IsStaffed (terminate_worker number_key as_number as_text rate id m)
  unfolding terminate_worker
  terminate_worker-IsStaffed id m h =
      either_way IsStaffed (has id m.workers) _ m
        (λ there. record {
          staffed = λ still.
              let (other, before) =
                has-close_session number_key as_number as_text rate id j m.tracker still in
              has-delete id j m.workers
              ∙ ap (λ b. if b then false else has j m.workers) other
              ∙ h.staffed before;
          shut = λ closed. not_empty id m.workers (h.shut closed) there;
        })
        (λ _. h)

  spawned-IsStaffed :
      (id : K) (info : I) (now : ℕ) (m : WorkerManager K I)
      → IsStaffed m
      → IsStaffed (spawn_tunnel_worker number_key as_number as_text rate id info now m)
  unfolding spawn_tunnel_worker
  spawned-IsStaffed id info now m h =
      either_way IsStaffed m.is_closed _ _ (λ _. record { staffed = h.staffed; shut = h.shut })
        (λ live. record {
          staffed = λ there. has-insert id j now m.workers ∙ elim (Bool-cases (same id j)) [
            | inl e ↦ ap (λ b. if b then true else has j m.workers) e
            | inr e ↦
                ap (λ b. if b then true else has j m.workers) e
                ∙ h.staffed (
                    sym (
                      has-create_session number_key as_number as_text rate id j info m.tracker
                      ∙ ap (λ b. if b then true else has j m.tracker.sessions) e)
                    ∙ there)
          ];
          shut = λ closed. absurd (sym live ∙ closed);
        })

  touch-IsStaffed :
      (id : K) (now : ℕ) (m : WorkerManager K I)
      → IsStaffed m
      → IsStaffed (touch number_key as_number as_text rate id now m)
  unfolding touch
  touch-IsStaffed id now m h =
      either_way IsStaffed (has id m.workers) _ m
        (λ there. record {
          staffed = λ still.
              has-insert id j now m.workers
              ∙ either_way (λ b. b ≡ true) (same id j) true (has j m.workers) (λ _. refl)
                  (λ _. h.staffed still);
          shut = λ closed. not_empty id m.workers (h.shut closed) there;
        })
        (λ _. h)

  reap-IsStaffed :
      (now : ℕ) (entries : List (K × ℕ)) (m : WorkerManager K I)
      → IsStaffed m
      → IsStaffed (reap number_key as_number as_text rate now entries m)
  unfolding reap
  reap-IsStaffed now [] m h = h
  reap-IsStaffed now ((id, last) ∷ entries) m h = reap-IsStaffed now entries _ (
      either_way IsStaffed (ltb (last + max_stall_ms) now) _ m
        (λ _. terminate_worker-IsStaffed id m h) (λ _. h))

  flush_stalled_sessions-IsStaffed :
      (entries : List (K × ℕ)) (m : WorkerManager K I)
      → IsStaffed m
      → IsStaffed (flush_stalled_sessions number_key as_number as_text rate entries m)
  unfolding flush_stalled_sessions
  flush_stalled_sessions-IsStaffed [] m h = h
  flush_stalled_sessions-IsStaffed ((id, last) ∷ entries) m h =
      flush_stalled_sessions-IsStaffed entries _ (terminate_worker-IsStaffed id m h)

  -- Closing the sessions of all workers leaves only sessions without one.
  close_sessions-unstaffed :
      (entries : List (K × ℕ)) (t : SessionTracker K I)
      → has j (close_sessions number_key as_number as_text rate entries t).sessions ≡ true
      → (has j entries ≡ false) × (has j t.sessions ≡ true)
  unfolding close_sessions has
  close_sessions-unstaffed [] t h = (refl, h)
  close_sessions-unstaffed ((id, last) ∷ entries) t h =
      let (unstaffed, there) = close_sessions-unstaffed entries _ h in
      let (other, before) = has-close_session number_key as_number as_text rate id j t there in
      (ap (λ b. if b then true else has j entries) other ∙ unstaffed, before)

  close_manager-IsStaffed :
      (m : WorkerManager K I)
      → IsStaffed m
      → IsStaffed (close_manager number_key as_number as_text rate m)
  unfolding close_manager
  close_manager-IsStaffed m h = record {
    staffed = λ still.
        let (unstaffed, before) = close_sessions-unstaffed m.workers m.tracker still in
        absurd (sym unstaffed ∙ h.staffed before);
    shut = λ _. refl;
  }

  worker_step-IsStaffed :
      (event : WorkerEvent K I) (m : WorkerManager K I)
      → IsStaffed m
      → IsStaffed (worker_step number_key as_number as_text rate event m)
  unfolding worker_step
  worker_step-IsStaffed (spawns id info now) m h = spawned-IsStaffed id info now m h
  worker_step-IsStaffed (logs id now) m h = touch-IsStaffed id now m h
  worker_step-IsStaffed (tells_bytes id of_id sent received now) m h =
      let h' = touch-IsStaffed id now m h in
      record {
        staffed = λ still. h'.staffed (
            sym (has-record_bytes number_key as_number as_text rate of_id j sent received _)
            ∙ still);
        shut = h'.shut;
      }
  worker_step-IsStaffed (ends id) m h = terminate_worker-IsStaffed id _ (closing id m h)
  worker_step-IsStaffed (reaps now) m h =
      either_way IsStaffed m.is_closed m _ (λ _. h) (λ _. reap-IsStaffed now m.workers m h)
  worker_step-IsStaffed flushes m h = flush_stalled_sessions-IsStaffed m.workers m h
  worker_step-IsStaffed shuts m h = close_manager-IsStaffed m h

  worker_run-IsStaffed :
      (events : List (WorkerEvent K I)) (m : WorkerManager K I)
      → IsStaffed m
      → IsStaffed (worker_run number_key as_number as_text rate events m)
  unfolding worker_run
  worker_run-IsStaffed [] m h = h
  worker_run-IsStaffed (event ∷ events) m h =
      worker_run-IsStaffed events _ (worker_step-IsStaffed event m h)

  -- After any events, from a tracker that a manager starts with: a session that the tracker still has is
  -- the session of a worker that the manager still has, and then the manager is not closed.
  pub worker_run-has :
      (events : List (WorkerEvent K I)) (now : ℕ)
      → has j
          (worker_run number_key as_number as_text rate events
            (new_worker_manager (new_tracker now))).tracker.sessions
        ≡ true
      → (has j
            (worker_run number_key as_number as_text rate events
              (new_worker_manager (new_tracker now))).workers
          ≡ true)
        × ((worker_run number_key as_number as_text rate events
              (new_worker_manager (new_tracker now))).is_closed
            ≡ false)
  unfolding has
  worker_run-has events now there =
      let end =
        worker_run number_key as_number as_text rate events
          (new_worker_manager (new_tracker now)) in
      let h =
        worker_run-IsStaffed events (new_worker_manager (new_tracker now))
          (record { staffed = λ e. e; shut = λ _. refl }) in
      let staffed = h.staffed there in
      (
        staffed,
        elim (Bool-cases end.is_closed) [
          | inl closed ↦ not_empty j end.workers (h.shut closed) staffed
          | inr live ↦ live
        ],
      )
