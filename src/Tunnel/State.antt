-- ===== src/Tunnel/State.antt =====
-- The variables of `BrookTunnel.run`. JavaScript runs one task at a time, so a step of the model goes
-- from one `await` to the next; the phase says which `await` the receive loop is suspended at.
use iwa_brook_quic.Base.{ℕ, ◌*◌, Bool, true, false, Option, none, List, []}
use iwa_brook_quic.Framing.{Result}

-- The first argument of `cleanup`.
pub data Reason : Type 0 where
  unknown idle_timeout client_abort framing_error target_dial_refused both_closed : Reason
  decrypt_error client_write_error rx_error transport_closed rx_overflow stream_error : Reason
  handshake_timeout upstream_write_failed tunnel_error loop_exit : Reason

-- What `handshakePromise` is.
pub data Promise : Type 0 where
  pending resolved rejected : Promise

-- An entry of `rxQueue`.
pub record Item : Type 0 where
  pub chunk : List ℕ
  pub fin : Bool

-- Where `processRxQueue` is suspended, with the `fin` of the entry in hand and what the awaited
-- operation will come to: the derived key, the opened length or payload, or the write of some bytes.
pub data Phase (K : Type 0) : Type 0 where
  idle : Phase K
  deriving_key : Bool → Option K → Phase K
  sending_success : Bool → Phase K
  opening_length : Bool → Result ℕ → Phase K
  opening_payload : Bool → Result (List ℕ) → Phase K
  writing : Bool → Phase K
  closing : Phase K

pub record Tunnel (K : Type 0) : Type 0 where
  pub is_terminated : Bool
  pub termination_reason : Reason
  pub client_read_closed : Bool
  pub client_write_closed : Bool
  pub server_fin_received : Bool
  pub transport_closed : Bool
  pub has_exchanged_data : Bool
  pub success_sent : Bool
  pub server_handshake_done : Bool
  pub handshake : Promise
  pub total_bytes_recv : ℕ
  pub sn : List ℕ
  pub server_cipher : Option K
  pub rx_buffer : List ℕ
  pub rx_offset : ℕ
  pub expected_payload_len : Option ℕ
  pub rx_queue : List Item
  pub rx_queued_bytes : ℕ
  pub metrics_rx_queued : ℕ
  pub is_processing_rx : Bool
  pub rx_scheduled : Bool
  pub phase : Phase K
  pub idle_timer : Option ℕ
  pub handshake_timer : Bool
  pub is_registered : Bool
  pub written : List ℕ
  pub failure_sent : Bool
  pub client_cancelled : Bool
  pub is_completed : Bool

-- The options that the receive side reads.
pub record Options : Type 0 where
  pub has_send_success : Bool
  pub has_send_failure : Bool
  pub close_client_streams : Bool

-- The `let` lines at the head of `run`; `metrics` is the counter that all tunnels share.
abbrev pub start : {K : Type 0} → ℕ → Tunnel K
start metrics = record {
  is_terminated = false;
  termination_reason = unknown;
  client_read_closed = false;
  client_write_closed = false;
  server_fin_received = false;
  transport_closed = false;
  has_exchanged_data = false;
  success_sent = false;
  server_handshake_done = false;
  handshake = pending;
  total_bytes_recv = 0;
  sn = [];
  server_cipher = none;
  rx_buffer = [];
  rx_offset = 0;
  expected_payload_len = none;
  rx_queue = [];
  rx_queued_bytes = 0;
  metrics_rx_queued = metrics;
  is_processing_rx = false;
  rx_scheduled = false;
  phase = idle;
  idle_timer = none;
  handshake_timer = false;
  is_registered = true;
  written = [];
  failure_sent = false;
  client_cancelled = false;
  is_completed = false;
}

-- 16 MiB
abbrev pub max_rx_buffer_bytes : ℕ
max_rx_buffer_bytes = 16 * 1024 * 1024
