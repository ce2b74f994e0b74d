-- ===== src/Samples.antt =====
-- The workflows of ports/samples-go.
pub mod SignalCounter
pub mod AwaitSignals
pub mod Quorum
pub mod Saga
pub mod SelectorRace
pub mod DurableClock
pub mod ContinueAsNew
pub mod Children
pub mod Nondeterminism
