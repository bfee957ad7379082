-- ===== src/Bridge.antt =====
-- brook-quicclient/src/workers/worker-tunnel-bridge.js: `createPortStreamBridge`, which makes a stream
-- of a MessagePort. The promises that `read` hands out are numbered in the order of the calls.
pub mod Reads
pub mod Bytes
pub mod Delivery
pub mod Bounds
mod Tests
use iwa_brook_quic.Base.{
  ℕ, suc, ◌+◌, ◌-◌, ◌*◌, ltb, if◌then◌else◌, Bool, true, false, ◌||◌, List, [], ◌∷◌, ◌++◌, length,
  map,
}

-- An entry of `readQueue`: a chunk, or the end of the stream.
pub data Entry : Type 0 where
  value : List ℕ → Entry
  end : Entry

-- What a promise of `read` comes to.
pub data Settlement : Type 0 where
  gives : List ℕ → Settlement
  finishes rejects : Settlement

-- What is posted on the port.
pub data Post : Type 0 where
  stream_data : List ℕ → Post
  stream_fin stream_error stream_cancel stream_ready : Post
  stream_failed : ℕ → Post

pub record Bridge : Type 0 where
  pub read_queue : List Entry
  pub pending : List ℕ
  pub next_read : ℕ
  pub settled : List (ℕ × Settlement)
  pub is_closed : Bool
  pub is_aborted : Bool
  pub read_queue_bytes : ℕ
  pub posted : List Post

abbrev pub new_bridge : Bridge
new_bridge = record {
  read_queue = [];
  pending = [];
  next_read = 0;
  settled = [];
  is_closed = false;
  is_aborted = false;
  read_queue_bytes = 0;
  posted = [];
}

-- 4 MiB
abbrev pub max_read_queue_bytes : ℕ
max_read_queue_bytes = 4 * 1024 * 1024

abbrev pub settle_all : Settlement → List ℕ → List (ℕ × Settlement)
settle_all s reads = map (λ i. (i, s)) reads

-- Every waiting promise is settled alike.
abbrev pub release : Settlement → Bridge → Bridge
release s b = record b { pending = []; settled = b.settled ++ settle_all s b.pending }

abbrev pub post : Post → Bridge → Bridge
post message b = record b { posted = b.posted ++ (message ∷ []) }

-- The part that `abortInbound` and CLIENT_ABORT share.
abbrev pub drop_inbound : Bridge → Bridge
drop_inbound b =
    release rejects
      (record b { is_closed = true; is_aborted = true; read_queue = []; read_queue_bytes = 0 })

abbrev pub abort_inbound : Bridge → Bridge
abort_inbound b = if b.is_closed then b else post stream_error (drop_inbound b)

-- A chunk for the first waiting promise, or else for the queue.
abbrev pub take_chunk : List ℕ → List ℕ → Bridge → Bridge
take_chunk chunk (i ∷ is) b = record b {
  pending = is;
  settled = b.settled ++ ((i, gives chunk) ∷ []);
}
take_chunk chunk [] b =
    if ltb max_read_queue_bytes (b.read_queue_bytes + length chunk)
    then abort_inbound b
    else record b {
      read_queue = b.read_queue ++ (value chunk ∷ []);
      read_queue_bytes = b.read_queue_bytes + length chunk;
    }

abbrev pub take_fin : List ℕ → Bridge → Bridge
take_fin (i ∷ is) b = release finishes b
take_fin [] b = record b { read_queue = b.read_queue ++ (end ∷ []) }

-- The messages that arrive on the port.
unfoldable pub on_client_data : List ℕ → Bridge → Bridge
on_client_data chunk b = if b.is_closed then b else take_chunk chunk b.pending b

unfoldable pub on_client_fin : Bridge → Bridge
on_client_fin b = if b.is_closed then b else take_fin b.pending (record b { is_closed = true })

unfoldable pub on_client_abort : Bridge → Bridge
on_client_abort b = drop_inbound b

-- `clientReader.read`
abbrev pub shift_entry : List Entry → Bridge → Bridge
shift_entry (value chunk ∷ entries) b = record b {
  read_queue = entries;
  read_queue_bytes = b.read_queue_bytes - length chunk;
  settled = b.settled ++ ((b.next_read, gives chunk) ∷ []);
  next_read = suc b.next_read;
}
shift_entry (end ∷ entries) b = record b {
  read_queue = entries;
  settled = b.settled ++ ((b.next_read, finishes) ∷ []);
  next_read = suc b.next_read;
}
shift_entry [] b =
    if b.is_closed
    then record b {
      settled = b.settled ++ ((b.next_read, finishes) ∷ []);
      next_read = suc b.next_read;
    }
    else record b { pending = b.pending ++ (b.next_read ∷ []); next_read = suc b.next_read }

unfoldable pub read : Bridge → Bridge
read b =
    if b.is_aborted
    then record b {
      settled = b.settled ++ ((b.next_read, rejects) ∷ []);
      next_read = suc b.next_read;
    }
    else shift_entry b.read_queue b

-- `clientReader.cancel`
unfoldable pub cancel : Bridge → Bridge
cancel b = post stream_cancel (release finishes (record b { is_closed = true }))

pub data Event : Type 0 where
  client_data : List ℕ → Event
  client_fin client_abort reads cancels closes : Event
  posts : Post → Event

-- The writer's calls and the replies only post.
unfoldable pub step : Event → Bridge → Bridge
step (client_data chunk) b = on_client_data chunk b
step client_fin b = on_client_fin b
step client_abort b = on_client_abort b
step reads b = read b
step cancels b = cancel b
step closes b = record b { is_closed = true }
step (posts message) b = post message b

unfoldable pub run : List Event → Bridge → Bridge
run [] b = b
run (event ∷ events) b = run events (step event b)
