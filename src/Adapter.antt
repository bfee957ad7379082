-- ===== src/Adapter.antt =====
-- brook-quicclient/src/webtransport/wt-stream-adapter.js: `WtStreamSession`, with the one stream that
-- it carries. The handlers are taken to have `onData`, `onClose` and `onError`, none of which throws.
pub mod Delivery
pub mod Bounds
mod Tests
use iwa_brook_quic.Base.{
  ℕ, ◌+◌, ◌*◌, ltb, ◌==◌, if◌then◌else◌, Bool, true, false, not, ◌&&◌, List, [], ◌∷◌, ◌++◌, length,
}

-- An entry of `_pendingChunks`.
pub record Chunk : Type 0 where
  pub bytes : List ℕ
  pub fin : Bool

-- What is called on the handlers.
pub data HandlerCall : Type 0 where
  on_data_call : List ℕ → Bool → HandlerCall
  on_close_call on_error_call : HandlerCall

pub record Session : Type 0 where
  pub has_handler : Bool
  pub pending_chunks : List Chunk
  pub pending_bytes : ℕ
  pub is_closed : Bool
  pub is_pumping : Bool
  pub calls : List HandlerCall

abbrev pub new_session : Session
new_session = record {
  has_handler = false;
  pending_chunks = [];
  pending_bytes = 0;
  is_closed = false;
  is_pumping = true;
  calls = [];
}

-- 4 MiB
abbrev pub max_pending_bytes : ℕ
max_pending_bytes = 4 * 1024 * 1024

abbrev pub call_handler : List HandlerCall → Session → Session
call_handler more s = record s { calls = s.calls ++ more }

unfoldable pub close : Session → Session
close s = if s.is_closed then s else record s {
  is_closed = true;
  has_handler = false;
  calls = s.calls ++ (if s.has_handler then on_close_call ∷ [] else []);
}

-- The `finally` block of the read pump, which leaves its loop.
abbrev pub end_pump : Session → Session
end_pump s = close (record s { is_pumping = false })

-- The head of the loop.
abbrev pub next_read : Session → Session
next_read s = if s.is_closed then end_pump s else s

-- `failPendingOverflow`, on a stream without a handler.
abbrev pub fail_pending_overflow : Session → Session
fail_pending_overflow s = end_pump (record s { pending_chunks = []; pending_bytes = 0 })

-- The read pump gets a chunk, the end of the stream, or a rejected read.
unfoldable pub pump_value : List ℕ → Session → Session
pump_value value s =
    if not s.is_pumping
    then s
    else if length value == 0
    then next_read s
    else if s.has_handler
    then next_read (call_handler (on_data_call value false ∷ []) s)
    else if ltb max_pending_bytes (s.pending_bytes + length value)
    then fail_pending_overflow s
    else next_read (record s {
      pending_chunks = s.pending_chunks ++ (record { bytes = value; fin = false } ∷ []);
      pending_bytes = s.pending_bytes + length value;
    })

unfoldable pub pump_done : Session → Session
pump_done s =
    if not s.is_pumping
    then s
    else if s.has_handler
    then end_pump (call_handler (on_data_call [] true ∷ on_close_call ∷ []) s)
    else end_pump
        (record s { pending_chunks = s.pending_chunks ++ (record { bytes = []; fin = true } ∷ []) })

unfoldable pub pump_fails : Session → Session
pump_fails s =
    if not s.is_pumping
    then s
    else if not s.is_closed && s.has_handler
    then end_pump (call_handler (on_error_call ∷ []) s)
    else end_pump s

-- What `registerStream` calls for the chunks that were kept.
abbrev pub flushed : List Chunk → List HandlerCall
flushed [] = []
flushed (item ∷ items) =
    on_data_call item.bytes item.fin
    ∷ ((if item.fin then on_close_call ∷ [] else []) ++ flushed items)

unfoldable pub register_stream : Session → Session
register_stream s = record s {
  has_handler = true;
  pending_chunks = [];
  pending_bytes = 0;
  calls = s.calls ++ flushed s.pending_chunks;
}

pub data SessionEvent : Type 0 where
  value_arrives : List ℕ → SessionEvent
  stream_ends read_fails registers unregisters closes : SessionEvent

unfoldable pub session_step : SessionEvent → Session → Session
session_step (value_arrives value) s = pump_value value s
session_step stream_ends s = pump_done s
session_step read_fails s = pump_fails s
session_step registers s = register_stream s
session_step unregisters s = record s { has_handler = false }
session_step closes s = close s

unfoldable pub session_run : List SessionEvent → Session → Session
session_run [] s = s
session_run (event ∷ events) s = session_run events (session_step event s)
