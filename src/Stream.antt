-- ===== src/Stream.antt =====
-- src/stream/stream.ts: the stream state machine, flow control and the stream manager.
pub mod Types
pub mod Bytes
pub mod Drain
pub mod Settle
pub mod Settings
pub mod Receive
pub mod Manager
pub mod Credit
pub mod Abort
pub mod Limits
pub mod Promises
mod Tests
