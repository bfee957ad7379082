-- ===== src/Bridge/Bounds.antt =====
-- The bound on what the bridge's queue holds.
use iwa_brook_quic.Base.{
  ℕ, ◌+◌, ◌≤◌, ◌≡◌, ◌∙◌, refl, ap, ltb, either_way, true, List, [], ◌∷◌, ◌++◌, length, arith,
}
use iwa_brook_quic.Bridge.{
  Bridge, Entry, value, end, Event, client_data, client_fin, client_abort, reads, cancels, closes,
  posts, new_bridge, max_read_queue_bytes, take_chunk, take_fin, shift_entry, on_client_data,
  on_client_fin, on_client_abort, read, cancel, step, run, abort_inbound,
}

abbrev pub queue_size : List Entry → ℕ
queue_size [] = 0
queue_size (value chunk ∷ rest) = length chunk + queue_size rest
queue_size (end ∷ rest) = queue_size rest

queue_size-append : (xs ys : List Entry) → queue_size (xs ++ ys) ≡ queue_size xs + queue_size ys
queue_size-append [] ys = omega arith
queue_size-append (value chunk ∷ xs) ys = omega (arith, queue_size-append xs ys)
queue_size-append (end ∷ xs) ys = queue_size-append xs ys

-- The counter is the size of the queue, and at most 4 MiB.
pub record IsBounded (b : Bridge) : Type 0 where
  pub counted : b.read_queue_bytes ≡ queue_size b.read_queue
  pub bounded : b.read_queue_bytes ≤ max_read_queue_bytes

take_chunk-IsBounded :
    (chunk pending : List ℕ) (b : Bridge) → IsBounded b → IsBounded (take_chunk chunk pending b)
take_chunk-IsBounded chunk (i ∷ is) b h = record { counted = h.counted; bounded = h.bounded }
take_chunk-IsBounded chunk [] b h =
    either_way IsBounded (ltb max_read_queue_bytes (b.read_queue_bytes + length chunk))
      (abort_inbound b) _
      (λ _.
        either_way IsBounded b.is_closed b _ (λ _. h)
          (λ _. record { counted = refl; bounded = omega arith }))
      (λ fits. record {
        counted = omega (arith, queue_size-append b.read_queue (value chunk ∷ []), h.counted);
        bounded = ground arith;
      })

take_fin-IsBounded : (pending : List ℕ) (b : Bridge) → IsBounded b → IsBounded (take_fin pending b)
take_fin-IsBounded (i ∷ is) b h = record { counted = h.counted; bounded = h.bounded }
take_fin-IsBounded [] b h = record {
  counted = omega (arith, queue_size-append b.read_queue (end ∷ []), h.counted);
  bounded = h.bounded;
}

shift_entry-IsBounded :
    (queue : List Entry) (b : Bridge)
    → b.read_queue ≡ queue
    → IsBounded b
    → IsBounded (shift_entry queue b)
shift_entry-IsBounded (value chunk ∷ entries) b e h =
    let size : b.read_queue_bytes ≡ length chunk + queue_size entries =
      h.counted ∙ ap queue_size e in
    record { counted = omega arith; bounded = omega (arith, h.bounded) }
shift_entry-IsBounded (end ∷ entries) b e h = record {
  counted = h.counted ∙ ap queue_size e;
  bounded = h.bounded;
}
shift_entry-IsBounded [] b e h =
    either_way IsBounded b.is_closed _ _ (λ _. record { counted = h.counted; bounded = h.bounded })
      (λ _. record { counted = h.counted; bounded = h.bounded })

step-IsBounded : (event : Event) (b : Bridge) → IsBounded b → IsBounded (step event b)
unfolding step on_client_data on_client_fin on_client_abort read cancel
step-IsBounded (client_data chunk) b h =
    either_way IsBounded b.is_closed b _ (λ _. h) (λ _. take_chunk-IsBounded chunk b.pending b h)
step-IsBounded client_fin b h =
    either_way IsBounded b.is_closed b _ (λ _. h)
      (λ _.
        take_fin-IsBounded b.pending (record b { is_closed = true })
          (record { counted = h.counted; bounded = h.bounded }))
step-IsBounded client_abort b h = record { counted = refl; bounded = omega arith }
step-IsBounded reads b h =
    either_way IsBounded b.is_aborted _ _ (λ _. record { counted = h.counted; bounded = h.bounded })
      (λ _. shift_entry-IsBounded b.read_queue b refl h)
step-IsBounded cancels b h = record { counted = h.counted; bounded = h.bounded }
step-IsBounded closes b h = record { counted = h.counted; bounded = h.bounded }
step-IsBounded (posts message) b h = record { counted = h.counted; bounded = h.bounded }

run-IsBounded : (events : List Event) (b : Bridge) → IsBounded b → IsBounded (run events b)
unfolding run
run-IsBounded [] b h = h
run-IsBounded (event ∷ events) b h = run-IsBounded events (step event b) (step-IsBounded event b h)

-- Whatever happens to a new bridge, its counter is the size of its queue, and at most 4 MiB.
pub run-new-IsBounded : (events : List Event) → IsBounded (run events new_bridge)
run-new-IsBounded events =
    run-IsBounded events new_bridge (record { counted = refl; bounded = omega arith })
