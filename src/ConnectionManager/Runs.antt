-- ===== src/ConnectionManager/Runs.antt =====
-- The invariant of the slots, over the events of a pool.
use iwa_brook_quic.Base.{
  Bool-cases, inl, inr, ◌⊎◌, ◌≤◌, ℕ, zero, suc, ◌≡◌, refl, leb, ◌==◌, if◌then◌else◌, either_way,
  Bool, true, false, not, ◌||◌, List, [], ◌∷◌, length, All, arith,
}
use iwa_brook_quic.Base.Table.{number_eq}
use iwa_brook_quic.ConnectionManager.{
  is_state_connected, is_some, Slot, slots_from, Manager, new_manager, is_usable, count,
  connect_slot, connect_ready, connect_rejected, transport_closed, stream_opened, stream_closed,
  stream_failed, close_slot, update_aggregate_state, at_slot, is_connected,
}
use iwa_brook_quic.ConnectionManager.Pool.{
  Creation, PoolEvent, connects, creates, settles, continues, resets, shuts, is_ready, is_rejected,
  is_ended, opens_stream, ends_stream, fails_stream, pool_step, pool_run, connect, create_session,
  choose_slot, connect_settled, close, warm_up, in_slot, when_slot,
}
use iwa_brook_quic.ConnectionManager.Slots.{
  IsConsistent, connect_slot-IsConsistent, connect_ready-IsConsistent,
  connect_rejected-IsConsistent, transport_closed-IsConsistent, stream_failed-IsConsistent,
  same_connection, without_transport, update_slot-All, map-All, reconnect-All, connect_all-All,
  choose_slot-All,
}

abbrev Sound : Manager → Type 0
Sound m = All IsConsistent m.slots

when_slot-Sound :
    (i : ℕ) (test : Slot → Bool) (f : Slot → Slot) (m : Manager)
    → ((s : Slot) → IsConsistent s → IsConsistent (f s))
    → Sound m
    → Sound (when_slot i test f m)
when_slot-Sound i test f m keeps h =
    either_way Sound (in_slot i test m.slots) (update_aggregate_state (at_slot i f m)) m
      (λ _. update_slot-All i f m.slots keeps h) (λ _. h)

create_session-Sound :
    (is_online : Bool) (m : Manager) → Sound m → Sound (create_session is_online m).0
unfolding create_session
create_session-Sound is_online m h =
    either_way (λ (p : Manager × Creation). Sound p.0) (m.is_closed || not is_online) (m, _) _
      (λ _. h)
      (λ _.
        either_way (λ (p : Manager × Creation). Sound p.0) (is_connected m) (choose_slot m) _
          (λ _. choose_slot-All m h)
          (λ _.
            update_slot-All 0 (connect_slot m.next_transport) m.slots
              (connect_slot-IsConsistent m.next_transport) h))

connect-Sound : (is_online : Bool) (m : Manager) → Sound m → Sound (connect is_online m)
unfolding connect
connect-Sound is_online m h =
    either_way Sound m.is_closed m _ (λ _. h)
      (λ _.
        either_way Sound (not is_online) _ _ (λ _. h)
          (λ _. connect_all-All m.next_transport m.slots h))

connect_settled-Sound : (m : Manager) → Sound m → Sound (connect_settled m)
unfolding connect_settled
connect_settled-Sound m h =
    either_way Sound (count is_usable m.slots == 0) _ (update_aggregate_state m) (λ _. h) (λ _. h)

close-Sound : (m : Manager) → Sound m → Sound (close m)
unfolding close close_slot
close-Sound m h =
    map-All close_slot m.slots
      (λ s h'. same_connection _ (close_slot s) refl refl refl refl refl (without_transport s h')) h

warm_up-Sound : (m : Manager) → Sound m → Sound (warm_up m)
warm_up-Sound m h = go m.slots h
  where
    go : (slots : List Slot) → All IsConsistent slots → Sound (warm_up (record m { slots = slots }))
    go [] h' = tt
    go (s ∷ slots) h' = (h'.0, reconnect-All m.next_transport slots h'.1)

continue-Sound :
    (small : Bool) (m : Manager)
    → Sound m
    → Sound
        (choose_slot
          (if small then update_aggregate_state m else warm_up (update_aggregate_state m))).0
continue-Sound true m h = choose_slot-All (update_aggregate_state m) h
continue-Sound false m h = choose_slot-All _ (warm_up-Sound (update_aggregate_state m) h)

abbrev pub is_reset : PoolEvent → Bool
is_reset resets = true
is_reset _ = false

pool_step-Sound :
    (event : PoolEvent) (m : Manager) → is_reset event ≡ false → Sound m → Sound (pool_step event m)
unfolding pool_step stream_opened stream_closed
pool_step-Sound (connects is_online) m e h = connect-Sound is_online m h
pool_step-Sound (creates is_online) m e h = create_session-Sound is_online m h
pool_step-Sound settles m e h = connect_settled-Sound m h
pool_step-Sound continues m e h = continue-Sound (leb (length m.slots) 1) m h
pool_step-Sound resets m e h = cc
pool_step-Sound shuts m e h = close-Sound m h
pool_step-Sound (is_ready i name) m e h =
    when_slot-Sound i _ (connect_ready name) m (connect_ready-IsConsistent name) h
pool_step-Sound (is_rejected i name) m e h =
    when_slot-Sound i _ (connect_rejected name) m (connect_rejected-IsConsistent name) h
pool_step-Sound (is_ended i name) m e h =
    either_way Sound m.is_closed (at_slot i (transport_closed name) m) _
      (λ _.
        update_slot-All i (transport_closed name) m.slots (transport_closed-IsConsistent name) h)
      (λ _. when_slot-Sound i _ (transport_closed name) m (transport_closed-IsConsistent name) h)
pool_step-Sound (opens_stream i stream) m e h =
    update_slot-All i (stream_opened stream) m.slots
      (λ s h'. same_connection s (stream_opened stream s) refl refl refl refl refl h') h
pool_step-Sound (ends_stream i stream) m e h =
    update_slot-All i (stream_closed stream) m.slots
      (λ s h'. same_connection s (stream_closed stream s) refl refl refl refl refl h') h
pool_step-Sound (fails_stream i is_fatal) m e h =
    when_slot-Sound i _ (stream_failed is_fatal) m (stream_failed-IsConsistent is_fatal) h

pool_run-Sound :
    (events : List PoolEvent) (m : Manager)
    → All (λ event. is_reset event ≡ false) events
    → Sound m
    → Sound (pool_run events m)
unfolding pool_run
pool_run-Sound [] m e h = h
pool_run-Sound (event ∷ events) m e h =
    pool_run-Sound events (pool_step event m) e.1 (pool_step-Sound event m e.0 h)

slots_from-Sound : (index n : ℕ) → All IsConsistent (slots_from index n)
slots_from-Sound index zero = tt
slots_from-Sound index (suc n) = (
  record {
    in_step = refl;
    single = omega arith;
    promised = λ _. refl;
    alone = λ _. refl;
    kept = refl;
  },
  slots_from-Sound (suc index) n,
)

-- A slot is connected where it has a transport; a connect under way has a promise and no transport; and
-- no open transport was overwritten.
pub record IsSettled (s : Slot) : Type 0 where
  pub in_step : is_state_connected s.state ≡ is_some s.transport
  pub single : length s.connects ≤ 1
  pub promised : (s.has_connect_promise ≡ true) ⊎ (length s.connects ≡ 0)
  pub alone : (is_some s.transport ≡ false) ⊎ (length s.connects ≡ 0)
  pub kept : s.lost ≡ 0

settled : (s : Slot) → IsConsistent s → IsSettled s
settled s h = record {
  in_step = h.in_step;
  single = h.single;
  promised = elim (Bool-cases s.has_connect_promise) [ inl e ↦ inl e | inr e ↦ inr (h.promised e) ];
  alone = elim (Bool-cases (is_some s.transport)) [ inl e ↦ inr (h.alone e) | inr e ↦ inl e ];
  kept = h.kept;
}

All-IsSettled : (slots : List Slot) → All IsConsistent slots → All IsSettled slots
All-IsSettled [] h = tt
All-IsSettled (s ∷ slots) h = (settled s h.0, All-IsSettled slots h.1)

-- After any events but a reset, closing included, each slot of a pool is connected exactly where it has
-- a transport; at most one connect of it is under way, and then it has a promise and no transport; and
-- no open transport was overwritten by another.
pub pool_run-IsSettled :
    (pool_size : ℕ) (events : List PoolEvent)
    → All (λ event. is_reset event ≡ false) events
    → All IsSettled (pool_run events (new_manager pool_size)).slots
unfolding new_manager
pool_run-IsSettled pool_size events e =
    All-IsSettled _ (pool_run-Sound events (new_manager pool_size) e (slots_from-Sound 0 pool_size))
