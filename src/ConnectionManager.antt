-- ===== src/ConnectionManager.antt =====
-- brook-quicclient/src/webtransport/wt-connection-manager.js: the pool of WebTransport sessions.
-- Transports and streams are named by numbers. A slot's connects are steps: one starts, and its
-- `ready`, its timeout or its error comes later; so do a stream's, and a transport's `closed`.
pub mod Pool
pub mod Slots
pub mod Runs
pub mod Stale
pub mod Choice
mod Tests
use iwa_brook_quic.Base.{
  ℕ, zero, suc, ◌+◌, ◌*◌, ltb, leb, ◌==◌, if◌then◌else◌, Bool, true, false, not, ◌&&◌, ◌||◌, Option,
  none, some, List, [], ◌∷◌, length, map,
}
use iwa_brook_quic.Base.Table.{number_eq, lookup, insert, delete, has}

pub data ConnectionState : Type 0 where
  disconnected connecting connected : ConnectionState

-- `connects` are those under way, and `lost` counts the open transports that were overwritten.
pub record Slot : Type 0 where
  pub id : ℕ
  pub transport : Option ℕ
  pub state : ConnectionState
  pub has_connect_promise : Bool
  pub connect_abort_controller : Option ℕ
  pub active_streams : List (ℕ × Unit {0})
  pub total_streams_served : ℕ
  pub next_stream_seq : ℕ
  pub connects : List (ℕ × Bool)
  pub lost : ℕ

abbrev pub new_slot : ℕ → Slot
new_slot index = record {
  id = index;
  transport = none;
  state = disconnected;
  has_connect_promise = false;
  connect_abort_controller = none;
  active_streams = [];
  total_streams_served = 0;
  next_stream_seq = index * 2;
  connects = [];
  lost = 0;
}

abbrev pub is_some : {A : Type 0} → Option A → Bool
is_some none = false
is_some (some _) = true

abbrev pub is_state_connected : ConnectionState → Bool
is_state_connected connected = true
is_state_connected _ = false

abbrev pub is_state_connecting : ConnectionState → Bool
is_state_connecting connecting = true
is_state_connecting _ = false

abbrev pub is_state_disconnected : ConnectionState → Bool
is_state_disconnected disconnected = true
is_state_disconnected _ = false

-- `s.state === CONNECTED && s.transport !== null`
abbrev pub is_usable : Slot → Bool
is_usable s = is_state_connected s.state && is_some s.transport

-- `_connectSlot`, which starts to connect the transport of this name, from its third guard on.
unfoldable pub connect_slot : ℕ → Slot → Slot
connect_slot name s = if is_usable s then s else if s.has_connect_promise then s else record s {
  state = connecting;
  connect_abort_controller = some name;
  has_connect_promise = true;
  connects = insert name false s.connects;
}

-- The `finally` block of a connect.
abbrev pub end_connect : ℕ → Slot → Slot
end_connect name s = record s {
  has_connect_promise = false;
  connect_abort_controller = none;
  connects = delete name s.connects;
}

abbrev pub holds : ℕ → Option ℕ → Bool
holds name none = false
holds name (some held) = held == name

-- The `catch` block of a connect.
unfoldable pub connect_failed : ℕ → Slot → Slot
connect_failed name s = end_connect name (record s {
  transport = if holds name s.transport then none else s.transport;
  state = disconnected;
})

-- The connect of this name is ready in time.
unfoldable pub connect_ready : ℕ → Slot → Slot
connect_ready name s = elim (lookup name s.connects) [
  | none ↦ s
  | some true ↦ connect_failed name s
  | some false ↦ end_connect name (record s {
    transport = some name;
    state = connected;
    lost = if is_some s.transport then suc s.lost else s.lost;
  })
]

-- The connect of this name fails, or its time is over, once it has the class of the transport.
unfoldable pub connect_rejected : ℕ → Slot → Slot
connect_rejected name s = if has name s.connects then connect_failed name s else s

-- `localTransport.closed` settles.
unfoldable pub transport_closed : ℕ → Slot → Slot
transport_closed name s =
    if holds name s.transport then record s { transport = none; state = disconnected } else s

-- A stream is there, or `onClose` of one is called.
unfoldable pub stream_opened : ℕ → Slot → Slot
stream_opened stream s = record s {
  active_streams = insert stream tt s.active_streams;
  total_streams_served = suc s.total_streams_served;
}

unfoldable pub stream_closed : ℕ → Slot → Slot
stream_closed stream s = record s { active_streams = delete stream s.active_streams }

-- The creation of a stream fails.
unfoldable pub stream_failed : Bool → Slot → Slot
stream_failed is_fatal s =
    if is_fatal && is_some s.transport
    then record s { state = disconnected; transport = none }
    else s

abbrev abort : Option ℕ → List (ℕ × Bool) → List (ℕ × Bool)
abort none connects = connects
abort (some name) connects = insert name true connects

-- A round of the loop of `resetSession`.
unfoldable pub reset_slot : Slot → Slot
reset_slot s = record s {
  connects = abort s.connect_abort_controller s.connects;
  connect_abort_controller = none;
  has_connect_promise = false;
  transport = none;
  active_streams = [];
  state = disconnected;
}

-- A round of the loop of `close`.
unfoldable pub close_slot : Slot → Slot
close_slot s = record s { active_streams = []; transport = none; state = disconnected }

pub record Manager : Type 0 where
  pub slots : List Slot
  pub pool_state : ConnectionState
  pub is_closed : Bool
  pub streams_served : ℕ
  pub next_transport : ℕ

abbrev slots_from : ℕ → ℕ → List Slot
slots_from index zero = []
slots_from index (suc n) = new_slot index ∷ slots_from (suc index) n

unfoldable pub new_manager : ℕ → Manager
new_manager pool_size = record {
  slots = slots_from 0 pool_size;
  pool_state = disconnected;
  is_closed = false;
  streams_served = 0;
  next_transport = 0;
}

abbrev pub count : (Slot → Bool) → List Slot → ℕ
count test [] = 0
count test (s ∷ slots) = if test s then suc (count test slots) else count test slots

unfoldable pub aggregate_state : List Slot → ConnectionState
aggregate_state slots =
    if ltb 0 (count is_usable slots)
    then connected
    else if ltb 0 (count (λ s. is_state_connecting s.state) slots)
    then connecting
    else disconnected

-- `_updateAggregateState`
abbrev pub update_aggregate_state : Manager → Manager
update_aggregate_state m = record m { pool_state = aggregate_state m.slots }

abbrev pub any_usable : List Slot → Bool
any_usable [] = false
any_usable (s ∷ slots) = is_usable s || any_usable slots

unfoldable pub is_connected : Manager → Bool
is_connected m = any_usable m.slots

-- The slot of this index is changed.
unfoldable pub update_slot : ℕ → (Slot → Slot) → List Slot → List Slot
update_slot i f [] = []
update_slot zero f (s ∷ slots) = f s ∷ slots
update_slot (suc i) f (s ∷ slots) = s ∷ update_slot i f slots

abbrev pub at_slot : ℕ → (Slot → Slot) → Manager → Manager
at_slot i f m = record m { slots = update_slot i f m.slots }
