-- ===== src/Adapter/Bounds.antt =====
-- The bound on what the adapter keeps for a handler to come.
use iwa_brook_quic.Base.{
  ℕ, ◌+◌, ◌≤◌, ◌≡◌, refl, ltb, ◌==◌, either_way, true, false, not, ◌&&◌, List, [], ◌∷◌, ◌++◌,
  length, arith,
}
use iwa_brook_quic.Adapter.{
  Chunk, Session, SessionEvent, value_arrives, stream_ends, read_fails, registers, unregisters,
  closes, new_session, max_pending_bytes, call_handler, close, end_pump, next_read,
  fail_pending_overflow, pump_value, pump_done, pump_fails, register_stream, session_step,
  session_run,
}

abbrev pub kept_size : List Chunk → ℕ
kept_size [] = 0
kept_size (item ∷ items) = length item.bytes + kept_size items

kept_size-append : (xs ys : List Chunk) → kept_size (xs ++ ys) ≡ kept_size xs + kept_size ys
kept_size-append [] ys = omega arith
kept_size-append (item ∷ xs) ys = omega (arith, kept_size-append xs ys)

-- The counter is the size of what is kept, and at most 4 MiB.
pub record IsWithin (s : Session) : Type 0 where
  pub counted : s.pending_bytes ≡ kept_size s.pending_chunks
  pub within : s.pending_bytes ≤ max_pending_bytes

close-IsWithin : (s : Session) → IsWithin s → IsWithin (close s)
unfolding close
close-IsWithin s h =
    either_way IsWithin s.is_closed s _ (λ _. h)
      (λ _. record { counted = h.counted; within = h.within })

end_pump-IsWithin : (s : Session) → IsWithin s → IsWithin (end_pump s)
end_pump-IsWithin s h =
    close-IsWithin (record s { is_pumping = false })
      (record { counted = h.counted; within = h.within })

next_read-IsWithin : (s : Session) → IsWithin s → IsWithin (next_read s)
next_read-IsWithin s h =
    either_way IsWithin s.is_closed (end_pump s) s (λ _. end_pump-IsWithin s h) (λ _. h)

pump_value-IsWithin : (value : List ℕ) (s : Session) → IsWithin s → IsWithin (pump_value value s)
unfolding pump_value
pump_value-IsWithin value s h =
    either_way IsWithin (not s.is_pumping) s _ (λ _. h)
      (λ _.
        either_way IsWithin (length value == 0) (next_read s) _ (λ _. next_read-IsWithin s h)
          (λ _.
            either_way IsWithin s.has_handler (next_read (call_handler _ s)) _
              (λ _.
                next_read-IsWithin (call_handler _ s)
                  (record { counted = h.counted; within = h.within }))
              (λ _.
                either_way IsWithin (ltb max_pending_bytes (s.pending_bytes + length value))
                  (fail_pending_overflow s) _
                  (λ _.
                    end_pump-IsWithin (record s { pending_chunks = []; pending_bytes = 0 })
                      (record { counted = refl; within = omega arith }))
                  (λ fits.
                    next_read-IsWithin
                      (record s {
                        pending_chunks =
                            s.pending_chunks ++ (record { bytes = value; fin = false } ∷ []);
                        pending_bytes = s.pending_bytes + length value;
                      })
                      (record {
                        counted = omega (
                          arith,
                          h.counted,
                          kept_size-append s.pending_chunks
                              (record { bytes = value; fin = false } ∷ []),
                        );
                        within = ground arith;
                      })))))

session_step-IsWithin :
    (event : SessionEvent) (s : Session) → IsWithin s → IsWithin (session_step event s)
unfolding session_step pump_done pump_fails register_stream
session_step-IsWithin (value_arrives value) s h = pump_value-IsWithin value s h
session_step-IsWithin stream_ends s h =
    either_way IsWithin (not s.is_pumping) s _ (λ _. h)
      (λ _.
        either_way IsWithin s.has_handler (end_pump (call_handler _ s)) _
          (λ _.
            end_pump-IsWithin (call_handler _ s)
              (record { counted = h.counted; within = h.within }))
          (λ _.
            end_pump-IsWithin
              (record s {
                pending_chunks = s.pending_chunks ++ (record { bytes = []; fin = true } ∷ []);
              })
              (record {
                counted = omega (
                  arith,
                  h.counted,
                  kept_size-append s.pending_chunks (record { bytes = []; fin = true } ∷ []),
                );
                within = h.within;
              })))
session_step-IsWithin read_fails s h =
    either_way IsWithin (not s.is_pumping) s _ (λ _. h)
      (λ _.
        either_way IsWithin (not s.is_closed && s.has_handler) (end_pump (call_handler _ s))
          (end_pump s)
          (λ _.
            end_pump-IsWithin (call_handler _ s)
              (record { counted = h.counted; within = h.within }))
          (λ _. end_pump-IsWithin s h))
session_step-IsWithin registers s h = record { counted = refl; within = omega arith }
session_step-IsWithin unregisters s h = record { counted = h.counted; within = h.within }
session_step-IsWithin closes s h = close-IsWithin s h

run-IsWithin :
    (events : List SessionEvent) (s : Session) → IsWithin s → IsWithin (session_run events s)
unfolding session_run
run-IsWithin [] s h = h
run-IsWithin (event ∷ events) s h =
    run-IsWithin events (session_step event s) (session_step-IsWithin event s h)

-- Whatever happens to a new stream session, what it keeps for a handler to come is what its counter
-- says, and at most 4 MiB.
pub session_run-IsWithin : (events : List SessionEvent) → IsWithin (session_run events new_session)
session_run-IsWithin events =
    run-IsWithin events new_session (record { counted = refl; within = omega arith })
