-- ===== src/Retry.antt =====
-- What an attempt to run a tunnel does to the client that it is run for: the calls that
-- `BrookTunnel.run` makes on the functions that
-- brook-quicclient/src/server/proxy-dispatcher.js and
-- brook-quicclient/src/workers/wt-session.worker.js pass to it, and the answer to the client, which
-- is sent once over all attempts.
pub mod Once
use iwa_brook_quic.Base.{
  ℕ, ◌+◌, ltb, if◌then◌else◌, Bool, true, false, not, ◌&&◌, ◌||◌, Option, none, some, List, [], ◌∷◌,
  ◌++◌,
}
use iwa_brook_quic.Tunnel.State.{
  Reason, unknown, client_abort, rx_overflow, idle_timeout, both_closed, transport_closed, Tunnel,
}

-- What `BrookTunnel.run` resolves to.
pub record TunnelOutcome : Type 0 where
  pub success : Bool
  pub kind : Reason
  pub bytes_received : ℕ

abbrev pub is_client_abort : Reason → Bool
is_client_abort client_abort = true
is_client_abort _ = false

abbrev pub is_rx_overflow : Reason → Bool
is_rx_overflow rx_overflow = true
is_rx_overflow _ = false

-- The calls that a run of the tunnel makes on what it is given.
pub data TunnelCall : Type 0 where
  calls_success : TunnelCall
  calls_failure : ℕ → TunnelCall
  reads_client_data : TunnelCall
  moves_bytes : ℕ → ℕ → TunnelCall
  calls_close : TunnelCall

-- An attempt: `createSession` rejects, the run resolves, or the run throws.
pub data Dial : Type 0 where
  unavailable : Dial
  ran : List TunnelCall → TunnelOutcome → Dial
  threw : List TunnelCall → Dial

pub data ProxyReply : Type 0 where
  success_reply : ProxyReply
  failure_reply : ℕ → ProxyReply

-- What the callbacks change. `recorded` lists the calls of `onBytes`, and `is_session_open` says whether the session that the attempt got is
-- there and not closed.
pub record Contact : Type 0 where
  pub proxy_replied : Bool
  pub replies : List ProxyReply
  pub client_data_consumed : Bool
  pub recorded : List (ℕ × ℕ)
  pub is_session_open : Bool

abbrev pub new_contact : Contact
new_contact = record {
  proxy_replied = false;
  replies = [];
  client_data_consumed = false;
  recorded = [];
  is_session_open = false;
}

-- `sendSuccessOnce` and `sendFailureOnce`
unfoldable pub reply_once : ProxyReply → Contact → Contact
reply_once reply c =
    if c.proxy_replied
    then c
    else record c { proxy_replied = true; replies = c.replies ++ (reply ∷ []) }

-- What the attempt passes to the tunnel: `sendFailure` and `onClose`, or null.
pub record Wiring : Type 0 where
  pub send_failure : Bool
  pub on_close : Bool

unfoldable pub tunnel_call : Wiring → TunnelCall → Contact → Contact
tunnel_call w calls_success c = reply_once success_reply c
tunnel_call w (calls_failure code) c =
    if w.send_failure then reply_once (failure_reply code) c else c
tunnel_call w reads_client_data c = record c { client_data_consumed = true }
tunnel_call w (moves_bytes sent received) c = record c {
  recorded = c.recorded ++ ((sent, received) ∷ []);
}
tunnel_call w calls_close c = if w.on_close then record c { is_session_open = false } else c

unfoldable pub tunnel_calls : Wiring → List TunnelCall → Contact → Contact
tunnel_calls w [] c = c
tunnel_calls w (call ∷ calls) c = tunnel_calls w calls (tunnel_call w call c)

-- The end of `BrookTunnel.run`.
abbrev counts_as_success : Reason → Bool
counts_as_success idle_timeout = true
counts_as_success transport_closed = true
counts_as_success _ = false

abbrev is_both_closed : Reason → Bool
is_both_closed both_closed = true
is_both_closed _ = false

unfoldable pub tunnel_outcome : {K : Type 0} → Tunnel K → TunnelOutcome
tunnel_outcome t = record {
  success =
      is_both_closed t.termination_reason
      || (t.server_handshake_done
          && ltb 0 t.total_bytes_recv
          && counts_as_success t.termination_reason);
  kind = t.termination_reason;
  bytes_received = t.total_bytes_recv;
}
