-- ===== src/Tunnel.antt =====
-- brook-quicclient/src/core/brook-tunnel.js: `BrookTunnel.run`, by the parts of its event handling.
pub mod State
pub mod Cleanup
pub mod Decode
pub mod Rx
pub mod Callbacks
pub mod Loop
pub mod Queue
pub mod Accounts
pub mod Decoder
pub mod Tracking
pub mod Stream
pub mod Kept
pub mod Delivery
pub mod Turns
pub mod Refinement
pub mod Outcome
pub mod Upload
pub mod Upstream
mod Tests
