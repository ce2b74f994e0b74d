-- ===== src/Dbos.antt =====
-- The workflows of ports/dbos-transact-py.
pub mod Fixture
pub mod Cancellation
pub mod Chain
pub mod Signals
pub mod Promises
pub mod Locks
pub mod Children
pub mod Calls
pub mod Sends
pub mod Small
pub mod Updates
pub mod Replay
