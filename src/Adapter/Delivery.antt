-- ===== src/Adapter/Delivery.antt =====
-- The bytes that the read pump gets reach the handler in order.
use iwa_brook_quic.Base.{
  ℕ, ◌+◌, ◌≡◌, ◌∙◌, refl, sym, ap, subst, ltb, ◌==◌, if◌then◌else◌, either_way, Bool, true, false,
  not, ◌&&◌, List, [], ◌∷◌, ◌++◌, length, arith, append-nil, append_assoc,
}
use iwa_brook_quic.Adapter.{
  Chunk, HandlerCall, on_data_call, on_close_call, on_error_call, Session, SessionEvent,
  value_arrives, stream_ends, read_fails, registers, unregisters, closes, new_session,
  max_pending_bytes, call_handler, close, end_pump, next_read, fail_pending_overflow, flushed,
  pump_value, pump_done, pump_fails, register_stream, session_step, session_run,
}

abbrev pub handed : List HandlerCall → List ℕ
handed [] = []
handed (on_data_call bytes fin ∷ rest) = bytes ++ handed rest
handed (on_close_call ∷ rest) = handed rest
handed (on_error_call ∷ rest) = handed rest

abbrev pub kept : List Chunk → List ℕ
kept [] = []
kept (item ∷ items) = item.bytes ++ kept items

-- The bytes that an event brings to a pump that still runs.
abbrev pub pumped : SessionEvent → Session → List ℕ
pumped (value_arrives value) s = if not s.is_pumping then [] else value
pumped _ s = []

abbrev pub pumped_in : List SessionEvent → Session → List ℕ
pumped_in [] s = []
pumped_in (event ∷ events) s = pumped event s ++ pumped_in events (session_step event s)

handed-append : (xs ys : List HandlerCall) → handed (xs ++ ys) ≡ handed xs ++ handed ys
handed-append [] ys = refl
handed-append (on_data_call bytes fin ∷ xs) ys =
    ap (◌++◌ bytes) (handed-append xs ys) ∙ sym (append_assoc bytes _ _)
handed-append (on_close_call ∷ xs) ys = handed-append xs ys
handed-append (on_error_call ∷ xs) ys = handed-append xs ys

kept-append : (xs ys : List Chunk) → kept (xs ++ ys) ≡ kept xs ++ kept ys
kept-append [] ys = refl
kept-append (item ∷ xs) ys =
    ap (◌++◌ item.bytes) (kept-append xs ys) ∙ sym (append_assoc item.bytes _ _)

fin_call :
    (fin : Bool) (rest : List HandlerCall)
    → handed ((if fin then on_close_call ∷ [] else []) ++ rest) ≡ handed rest
fin_call true rest = refl
fin_call false rest = refl

handed-flushed : (items : List Chunk) → handed (flushed items) ≡ kept items
handed-flushed [] = refl
handed-flushed (item ∷ items) =
    ap (◌++◌ item.bytes) (fin_call item.fin (flushed items) ∙ handed-flushed items)

-- Calls that hand nothing over.
silent : (calls more : List HandlerCall) → handed more ≡ [] → handed (calls ++ more) ≡ handed calls
silent calls more e = handed-append calls more ∙ ap (◌++◌ (handed calls)) e ∙ append-nil _

-- What the handler got, then what is kept, then what an overflow threw away. With a handler in place
-- nothing is kept, and while the pump runs nothing was thrown away.
pub record InStep (seen : List ℕ) (s : Session) : Type 0 where
  pub lost : List ℕ
  pub in_order : handed s.calls ++ (kept s.pending_chunks ++ lost) ≡ seen
  pub whole : s.is_pumping ≡ true → lost ≡ []
  pub direct : s.has_handler ≡ true → s.pending_chunks ≡ []

module _ (seen : List ℕ) where
  silent_calls :
      (more : List HandlerCall) (s : Session)
      → handed more ≡ []
      → InStep seen s
      → InStep seen (call_handler more s)
  silent_calls more s e h = record {
    lost = h.lost;
    in_order =
        ap (λ xs. xs ++ (kept s.pending_chunks ++ h.lost)) (silent s.calls more e) ∙ h.in_order;
    whole = h.whole;
    direct = h.direct;
  }

  close-InStep : (s : Session) → InStep seen s → InStep seen (close s)
  unfolding close
  close-InStep s h =
      either_way (InStep seen) s.is_closed s _ (λ _. h)
        (λ _.
          let more : List HandlerCall = if s.has_handler then on_close_call ∷ [] else [] in
          let told = silent_calls more s (close_only s.has_handler) h in
          record {
            lost = told.lost;
            in_order = told.in_order;
            whole = told.whole;
            direct = λ e. absurd (cc);
          })
    where
      close_only : (b : Bool) → handed (if b then on_close_call ∷ [] else []) ≡ []
      close_only true = refl
      close_only false = refl

  -- The pump ends, and from here on something may be missing.
  ended-InStep :
      (s : Session) (lost : List ℕ)
      → handed s.calls ++ (kept s.pending_chunks ++ lost) ≡ seen
      → (s.has_handler ≡ true → s.pending_chunks ≡ [])
      → InStep seen (end_pump s)
  ended-InStep s lost e direct =
      close-InStep (record s { is_pumping = false })
        (record { lost = lost; in_order = e; whole = λ f. absurd (cc); direct = direct })

  end_pump-InStep : (s : Session) → InStep seen s → InStep seen (end_pump s)
  end_pump-InStep s h = ended-InStep s h.lost h.in_order h.direct

  next_read-InStep : (s : Session) → InStep seen s → InStep seen (next_read s)
  next_read-InStep s h =
      either_way (InStep seen) s.is_closed (end_pump s) s (λ _. end_pump-InStep s h) (λ _. h)

  done-InStep : (s : Session) → InStep seen s → InStep seen (pump_done s)
  unfolding pump_done
  done-InStep s h =
      either_way (InStep seen) (not s.is_pumping) s _ (λ _. h)
        (λ _.
          either_way (InStep seen) s.has_handler (end_pump (call_handler _ s)) _
            (λ _.
              end_pump-InStep (call_handler _ s)
                (silent_calls (on_data_call [] true ∷ on_close_call ∷ []) s refl h))
            (λ absent.
              ended-InStep
                (record s {
                  pending_chunks = s.pending_chunks ++ (record { bytes = []; fin = true } ∷ []);
                })
                h.lost
                (ap (λ xs. handed s.calls ++ (xs ++ h.lost))
                    (kept-append s.pending_chunks (record { bytes = []; fin = true } ∷ [])
                      ∙ append-nil (kept s.pending_chunks))
                  ∙ h.in_order)
                (λ present. absurd (cc))))

  fails-InStep : (s : Session) → InStep seen s → InStep seen (pump_fails s)
  unfolding pump_fails
  fails-InStep s h =
      either_way (InStep seen) (not s.is_pumping) s _ (λ _. h)
        (λ _.
          either_way (InStep seen) (not s.is_closed && s.has_handler) (end_pump (call_handler _ s))
            (end_pump s)
            (λ _. end_pump-InStep (call_handler _ s) (silent_calls (on_error_call ∷ []) s refl h))
            (λ _. end_pump-InStep s h))

  register-InStep : (s : Session) → InStep seen s → InStep seen (register_stream s)
  unfolding register_stream
  register-InStep s h = record {
    lost = h.lost;
    in_order =
        ap (λ xs. xs ++ h.lost)
          (handed-append s.calls (flushed s.pending_chunks)
            ∙ ap (◌++◌ (handed s.calls)) (handed-flushed s.pending_chunks))
        ∙ append_assoc (handed s.calls) (kept s.pending_chunks) h.lost
        ∙ h.in_order;
    whole = h.whole;
    direct = λ _. refl;
  }

handed_over :
    (d k l value seen : List ℕ)
    → k ≡ []
    → l ≡ []
    → d ++ (k ++ l) ≡ seen
    → (d ++ (value ++ [])) ++ (k ++ l) ≡ seen ++ value
handed_over d k l value seen ek el e =
    let all : d ≡ seen = sym (append-nil d) ∙ rw (ek, el) at e in
    rw (ek, el) (append-nil _ ∙ ap (◌++◌ d) (append-nil value) ∙ ap (λ xs. xs ++ value) all)

kept_back :
    (d k l value seen : List ℕ)
    → l ≡ []
    → d ++ (k ++ l) ≡ seen
    → d ++ ((k ++ (value ++ [])) ++ l) ≡ seen ++ value
kept_back d k l value seen el e =
    let all : d ++ k ≡ seen = ap (◌++◌ d) (sym (append-nil k)) ∙ rw el at e in
    rw el (
      ap (◌++◌ d) (append-nil _ ∙ ap (◌++◌ k) (append-nil value))
      ∙ sym (append_assoc d k value)
      ∙ ap (λ xs. xs ++ value) all)

no_bytes : (xs : List ℕ) → (length xs == 0) ≡ true → xs ≡ []
no_bytes [] e = refl
no_bytes (x ∷ xs) e = ground arith

module _ (value seen : List ℕ) (s : Session) (running : s.is_pumping ≡ true)
    (h : InStep seen s) where
  empty-InStep : (length value == 0) ≡ true → InStep (seen ++ value) (next_read s)
  empty-InStep empty =
      let same : seen ++ value ≡ seen = ap (◌++◌ seen) (no_bytes value empty) ∙ append-nil seen in
      subst (λ xs. InStep xs (next_read s)) (sym same) (next_read-InStep seen s h)

  direct-InStep :
      s.has_handler ≡ true
      → InStep (seen ++ value) (next_read (call_handler (on_data_call value false ∷ []) s))
  direct-InStep present =
      next_read-InStep (seen ++ value) (call_handler (on_data_call value false ∷ []) s) (record {
        lost = h.lost;
        in_order =
            ap (λ xs. xs ++ (kept s.pending_chunks ++ h.lost))
              (handed-append s.calls (on_data_call value false ∷ []))
            ∙ handed_over (handed s.calls) (kept s.pending_chunks) h.lost value seen
                (ap kept (h.direct present)) (h.whole running) h.in_order;
        whole = h.whole;
        direct = h.direct;
      })

  overflow-InStep : s.has_handler ≡ false → InStep (seen ++ value) (fail_pending_overflow s)
  overflow-InStep absent =
      ended-InStep (seen ++ value) (record s { pending_chunks = []; pending_bytes = 0 })
        (kept s.pending_chunks ++ value)
        (sym (append_assoc (handed s.calls) (kept s.pending_chunks) value)
          ∙ ap (λ xs. xs ++ value)
              (ap (◌++◌ (handed s.calls)) (sym (append-nil (kept s.pending_chunks)))
                ∙ subst (λ l. handed s.calls ++ (kept s.pending_chunks ++ l) ≡ seen)
                    (h.whole running) h.in_order))
        (λ _. refl)

  kept-InStep :
      s.has_handler ≡ false
      → InStep (seen ++ value) (
          next_read (record s {
            pending_chunks = s.pending_chunks ++ (record { bytes = value; fin = false } ∷ []);
            pending_bytes = s.pending_bytes + length value;
          }))
  kept-InStep absent =
      next_read-InStep (seen ++ value)
        (record s {
          pending_chunks = s.pending_chunks ++ (record { bytes = value; fin = false } ∷ []);
          pending_bytes = s.pending_bytes + length value;
        })
        (record {
          lost = h.lost;
          in_order =
              ap (λ xs. handed s.calls ++ (xs ++ h.lost))
                (kept-append s.pending_chunks (record { bytes = value; fin = false } ∷ []))
              ∙ kept_back (handed s.calls) (kept s.pending_chunks) h.lost value seen
                  (h.whole running) h.in_order;
          whole = h.whole;
          direct = λ present. absurd (cc);
        })

value-InStep :
    (is_pumping : Bool) (value seen : List ℕ) (s : Session)
    → s.is_pumping ≡ is_pumping
    → InStep seen s
    → InStep (seen ++ (if not is_pumping then [] else value)) (pump_value value s)
unfolding pump_value
value-InStep false value seen s e h =
    either_way (InStep (seen ++ [])) (not s.is_pumping) s _ (λ _. rw append-nil h)
      (λ on. absurd (ground arith))
value-InStep true value seen s e h =
    let P = InStep (seen ++ value) in
    either_way P (not s.is_pumping) s _ (λ off. absurd (ground arith))
      (λ _. either_way P (length value == 0) (next_read s) _ (empty-InStep value seen s e h) (λ _.
        either_way P s.has_handler (next_read (call_handler (on_data_call value false ∷ []) s)) _
          (direct-InStep value seen s e h)
          (λ absent.
            either_way P (ltb max_pending_bytes (s.pending_bytes + length value))
              (fail_pending_overflow s) _ (λ _. overflow-InStep value seen s e h absent)
              (λ _. kept-InStep value seen s e h absent))))

step-InStep :
    (event : SessionEvent) (seen : List ℕ) (s : Session)
    → InStep seen s
    → InStep (seen ++ pumped event s) (session_step event s)
unfolding session_step
step-InStep (value_arrives value) seen s h = value-InStep s.is_pumping value seen s refl h
step-InStep stream_ends seen s h = rw append-nil (done-InStep seen s h)
step-InStep read_fails seen s h = rw append-nil (fails-InStep seen s h)
step-InStep registers seen s h = rw append-nil (register-InStep seen s h)
step-InStep unregisters seen s h =
    rw append-nil
      (record { lost = h.lost; in_order = h.in_order; whole = h.whole; direct = λ e. absurd (cc) })
step-InStep closes seen s h = rw append-nil (close-InStep seen s h)

run-InStep :
    (events : List SessionEvent) (seen : List ℕ) (s : Session)
    → InStep seen s
    → InStep (seen ++ pumped_in events s) (session_run events s)
unfolding session_run
run-InStep [] seen s h = rw append-nil h
run-InStep (event ∷ events) seen s h =
    rw append_assoc at (
      run-InStep events (seen ++ pumped event s) (session_step event s)
        (step-InStep event seen s h))

-- Whatever happens to a new stream session, however often handlers come and go: what the handlers
-- got and then what is kept are the bytes that the pump read, in order, and as long as the pump runs
-- none is missing.
pub session_run-InStep :
    (events : List SessionEvent)
    → InStep (pumped_in events new_session) (session_run events new_session)
session_run-InStep events =
    run-InStep events [] new_session
      (record { lost = []; in_order = refl; whole = λ _. refl; direct = λ _. refl })
