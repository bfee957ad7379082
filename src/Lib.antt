-- ===== src/Lib.antt =====
-- The Brook client that runs in the browser: a local SOCKS5 and HTTP proxy whose connections go
-- through an encrypted tunnel on a QUIC stream. A connection is parsed
-- (brook-quicclient/src/protocols), may come from another worker through a message port
-- (brook-quicclient/src/workers), is dispatched with up to three attempts
-- (brook-quicclient/src/server) on a session of a pool (brook-quicclient/src/webtransport), and is
-- piped by `BrookTunnel.run`, which seals and opens frames
-- (brook-quicclient/src/core).
--
-- The files, by the code that they model:
-- - Bytes: brook-quicclient/src/core/byte-utils.js, the byte buffers (Concat, Words and Hex hold
--   the proofs);
-- - Nonce: `nextNonce` of brook-quicclient/src/core/brook-crypto.js (Counter holds the proofs);
-- - Framing: brook-quicclient/src/core/brook-framing.js, `sealFrame`, `openLength`, `openPayload`,
--   `buildBrookHeader` (RoundTrip and Header hold the proofs);
-- - Tunnel: brook-quicclient/src/core/brook-tunnel.js, `BrookTunnel.run`. State has the
--   variables of `run`, Cleanup `resetIdleTimer`, `cleanup` and `checkFullClose`, Decode and Rx
--   `processRxQueue`, Callbacks the stream's callbacks and the timers. JavaScript runs one task at a
--   time, so `step` goes from one `await` to the next, and the variable `phase` says at which
--   `await` the loop is suspended and what the awaited operation comes to. Decoder is the abstract
--   specification, a decoder of the byte stream that knows nothing of chunks; Tracking, Stream,
--   Kept, Delivery, Turns, Refinement and Outcome prove that the tunnel refines it, Loop, Queue and
--   Accounts treat the byte counters. Upload has the slices of a read, and Upstream the whole of
--   `run`: the handshake, the loop over the client's reads, the half-close and the end, beside the
--   receive side (Frames, Progress, Steps, Fin and Sent follow what is sent, Received and Outcome
--   what is received, Accounts the byte counters; Rule is the induction over the run that the last
--   ones share);
-- - Socks5: brook-quicclient/src/protocols/socks5-parser.js (Negotiation, Handshake and Replies
--   hold the proofs);
-- - Bridge: `createPortStreamBridge` of brook-quicclient/src/workers/worker-tunnel-bridge.js
--   (Reads, Bytes, Delivery and Bounds hold the proofs);
-- - Adapter: brook-quicclient/src/webtransport/wt-stream-adapter.js, the read pump of
--   `WtStreamSession` and the chunks that it keeps until a handler is there (Delivery and Bounds
--   hold the proofs);
-- - KeyCache: the cache of base keys of brook-quicclient/src/core/brook-crypto.js, `cacheKeyFor` and
--   `getBaseKey` (Bounds and Collisions hold the proofs);
-- - HttpProxy: of brook-quicclient/src/protocols/http-proxy-parser.js, `findHeaderEnd`, the reading
--   of the headers and the replies (HeaderEnd and Reading hold the proofs);
-- - NetworkMonitor: brook-quicclient/src/core/network-monitor.js (Reports holds the proofs);
-- - Retry: what an attempt to run a tunnel does to its client, shared by the two that make attempts:
--   the callbacks that they pass to `BrookTunnel.run`, and the one answer to the client;
-- - Dispatcher: brook-quicclient/src/server/proxy-dispatcher.js, the attempts of `_processClient`
--   (Rule, Attempts and Answers hold the proofs), and in Clients the clients from their accepted sockets
--   to their ends, interleaved in any way, with the session tracker that they share (Served, Totals,
--   Phases and Sessions hold the proofs). The attempts of one client touch the tracker only through
--   `onBytes`, which is an event there;
-- - Dns: brook-quicclient/src/core/dns-resolver.js, the query and the parsing of the response (Message
--   is the message of RFC 1035 that they are compared with; Reader, Query and Response hold the
--   proofs), and in Resolver the cache of addresses and the pending queries (Bounds and Fairness
--   hold the proofs);
-- - SessionTracker: brook-quicclient/src/server/session-tracker.js (Counts and Removal hold the
--   proofs);
-- - SessionWorker: `runWtTunnel` of brook-quicclient/src/workers/wt-session.worker.js (Shut,
--   Attempts and Closing hold the proofs);
-- - WorkerManager: brook-quicclient/src/workers/wt-worker-manager.js, with the session tracker that it
--   tells of its workers (Tracking holds the proofs);
-- - ConnectionManager: brook-quicclient/src/webtransport/wt-connection-manager.js, the slots of the
--   pool, and in Pool its operations from one `await` to the next (Slots, Runs, Choice and Stale hold
--   the proofs);
-- - Base: names, Boolean tests, list, bit and integer lemmas that the others share.
--
-- Numbers are natural numbers; `<<`, `|`, `&` and `>>>` are written out with their wrap-around
-- where JavaScript has one. A `Uint8Array` is a list of numbers. AES-GCM is the record `Aead`,
-- whose one law is that a 12-byte nonce encrypts and that decryption undoes it; key derivation is
-- a function parameter, and so is `TextDecoder`.
-- `to_radix` runs on fuel: each round divides by the radix, so n + 1 rounds are enough for n. So
-- does `slices`: each round takes at least a byte; and the loops over the attempts run on fuel 4, one
-- more than the source's bound of 3, and the loops over the labels of a name on as much fuel as the
-- buffer has bytes, of which each round takes at least one. All other loops are structural.
--
-- What the platform and the run of a tunnel do to an attempt, a slot or the tracker is a list of
-- events or an environment over which the theorems quantify. `Number`, `String` and the rounded
-- quotient of the tracker's rates, and the import of a key, are function parameters.
--
-- Not modelled: logging, the durations of the timers beyond their being armed, the request line and
-- header lines of the HTTP parser, the first read of the dispatcher and the starting and stopping of
-- its listeners, a class of the transport that cannot be had (a connect then fails before its `try`
-- block), the listener worker, the DNS exchange over the tunnel, the user interface, the server in
-- Go, and the stand-alone applications beside the client.
pub mod Base
pub mod Bytes
pub mod NetworkMonitor
pub mod Nonce
pub mod Framing
pub mod Tunnel
pub mod Socks5
pub mod Bridge
pub mod Adapter
pub mod KeyCache
pub mod Retry
pub mod Dispatcher
pub mod Dns
pub mod SessionTracker
pub mod ConnectionManager
pub mod HttpProxy
pub mod SessionWorker
pub mod WorkerManager
