-- ===== src/ConnectionManager/Pool.antt =====
-- The pool's own operations, from one `await` to the next: `connect`, `createSession`, `resetSession`,
-- `close`.
use iwa_brook_quic.Base.{
  ℕ, zero, suc, ◌+◌, leb, ◌==◌, if◌then◌else◌, Bool, true, false, not, ◌&&◌, ◌||◌, List, [], ◌∷◌,
  length, map,
}
use iwa_brook_quic.Base.Table.{has, number_eq}
use iwa_brook_quic.ConnectionManager.{
  Slot, Manager, disconnected, connecting, is_usable, is_state_disconnected, connect_slot,
  connect_ready, connect_rejected, transport_closed, stream_opened, stream_closed, stream_failed,
  reset_slot, close_slot, update_aggregate_state, at_slot, update_slot, is_connected, is_some,
  holds, count,
}

-- The slots that may be connected, each with its index.
abbrev pub usable_from : ℕ → List Slot → List (ℕ × Slot)
usable_from i [] = []
usable_from i (s ∷ slots) =
    if is_usable s then (i, s) ∷ usable_from (suc i) slots else usable_from (suc i) slots

abbrev pub load : ℕ × Slot → ℕ
load (i, s) = length s.active_streams

-- `connectedSlots.sort(...)`, which is stable.
abbrev pub insert_by_load : ℕ × Slot → List (ℕ × Slot) → List (ℕ × Slot)
insert_by_load x [] = x ∷ []
insert_by_load x (y ∷ ys) = if leb (load x) (load y) then x ∷ y ∷ ys else y ∷ insert_by_load x ys

unfoldable pub sort_by_load : List (ℕ × Slot) → List (ℕ × Slot)
sort_by_load [] = []
sort_by_load (x ∷ xs) = insert_by_load x (sort_by_load xs)

-- The background connects of the slots that are down, with names from here on.
unfoldable pub reconnect : ℕ → List Slot → List Slot
reconnect name [] = []
reconnect name (s ∷ slots) =
    (if is_state_disconnected s.state && not s.has_connect_promise then connect_slot name s else s)
    ∷ reconnect (suc name) slots

-- `for (let i = 1; ...)`, after the first slot has been connected
abbrev pub warm_up : Manager → Manager
warm_up m = record m {
  slots = all_but_first m.slots;
  next_transport = m.next_transport + length m.slots;
}
  where
    all_but_first : List Slot → List Slot
    all_but_first [] = []
    all_but_first (s ∷ slots) = s ∷ reconnect m.next_transport slots

-- Every slot is connected.
unfoldable pub connect_all : ℕ → List Slot → List Slot
connect_all name [] = []
connect_all name (s ∷ slots) = connect_slot name s ∷ connect_all (suc name) slots

-- `slot.nextStreamSeq += 4`
abbrev pub next_stream : Slot → Slot
next_stream s = record s { next_stream_seq = s.next_stream_seq + 4 }

-- What a part of `createSession` comes to: it throws, it waits for a slot to be connected, or it asks
-- the transport of a slot for a stream, under an id.
pub data Creation : Type 0 where
  refuses waits : Creation
  asks_stream : ℕ → ℕ → Creation

-- Steps 3 and 4 of `createSession`.
unfoldable pub choose_slot : Manager → Manager × Creation
choose_slot m = elim (sort_by_load (usable_from 0 m.slots)) [
  | [] ↦ (m, refuses)
  | (i, s) ∷ _ ↦ (
    record m {
      slots = update_slot i next_stream (reconnect m.next_transport m.slots);
      next_transport = m.next_transport + length m.slots;
    },
    asks_stream i (s.next_stream_seq + 4),
  )
]

-- `createSession` up to its first `await`.
unfoldable pub create_session : Bool → Manager → Manager × Creation
create_session is_online m =
    if m.is_closed || not is_online
    then (m, refuses)
    else if is_connected m
    then choose_slot m
    else (
      record m {
        slots = update_slot 0 (connect_slot m.next_transport) m.slots;
        next_transport = suc m.next_transport;
        pool_state = if leb (length m.slots) 1 then connecting else m.pool_state;
      },
      waits,
    )

-- `connect` up to its `await`.
unfoldable pub connect : Bool → Manager → Manager
connect is_online m =
    if m.is_closed
    then m
    else if not is_online
    then record m { pool_state = disconnected }
    else record m {
      slots = connect_all m.next_transport m.slots;
      next_transport = m.next_transport + length m.slots;
      pool_state = connecting;
    }

-- The rest of `connect`.
unfoldable pub connect_settled : Manager → Manager
connect_settled m =
    if count is_usable m.slots == 0
    then record m { pool_state = disconnected }
    else update_aggregate_state m

unfoldable pub reset_session : Manager → Manager
reset_session m = update_aggregate_state (record m { slots = map reset_slot m.slots })

unfoldable pub close : Manager → Manager
close m = record m { is_closed = true; pool_state = disconnected; slots = map close_slot m.slots }

-- What happens to the pool; the numbers are a slot's index and the name of a transport or stream.
pub data PoolEvent : Type 0 where
  connects creates : Bool → PoolEvent
  settles continues resets shuts : PoolEvent
  is_ready is_rejected is_ended opens_stream ends_stream : ℕ → ℕ → PoolEvent
  fails_stream : ℕ → Bool → PoolEvent

abbrev pub in_slot : ℕ → (Slot → Bool) → List Slot → Bool
in_slot i test [] = false
in_slot zero test (s ∷ slots) = test s
in_slot (suc i) test (s ∷ slots) = in_slot i test slots

-- A slot that passes the test is changed, and then the state of the pool.
abbrev pub when_slot : ℕ → (Slot → Bool) → (Slot → Slot) → Manager → Manager
when_slot i test f m = if in_slot i test m.slots then update_aggregate_state (at_slot i f m) else m

unfoldable pub pool_step : PoolEvent → Manager → Manager
pool_step (connects is_online) m = connect is_online m
pool_step (creates is_online) m = (create_session is_online m).0
pool_step settles m = connect_settled m
pool_step continues m =
    let m' = update_aggregate_state m in
    (choose_slot (if leb (length m.slots) 1 then m' else warm_up m')).0
pool_step resets m = reset_session m
pool_step shuts m = close m
pool_step (is_ready i name) m = when_slot i (λ s. has name s.connects) (connect_ready name) m
pool_step (is_rejected i name) m = when_slot i (λ s. has name s.connects) (connect_rejected name) m
pool_step (is_ended i name) m =
    if m.is_closed
    then at_slot i (transport_closed name) m
    else when_slot i (λ s. holds name s.transport) (transport_closed name) m
pool_step (opens_stream i stream) m =
    at_slot i (stream_opened stream) (record m { streams_served = suc m.streams_served })
pool_step (ends_stream i stream) m = at_slot i (stream_closed stream) m
pool_step (fails_stream i is_fatal) m =
    when_slot i (λ s. is_fatal && is_some s.transport) (stream_failed is_fatal) m

unfoldable pub pool_run : List PoolEvent → Manager → Manager
pool_run [] m = m
pool_run (event ∷ events) m = pool_run events (pool_step event m)
