-- ===== src/Connection.antt =====
-- src/connection.ts: the connection over the stream manager.
pub mod Request
pub mod Reader
pub mod State
pub mod Calls
pub mod Preface
pub mod Aside
pub mod Hearing
pub mod Down
pub mod Pings
pub mod Waits
pub mod Waking
pub mod Runs
mod Tests
