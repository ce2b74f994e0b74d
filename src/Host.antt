-- ===== src/Host.antt =====
-- The host that runs a workflow: its calls, programs that make them, and their runs. The host is the
-- package github.com/cleat-team/cleat/cleat, which the repository only calls: here it is a parameter.
pub mod Calls
pub mod Program
pub mod Run
pub mod Chain
pub mod Logic
pub mod History
pub mod Progress
pub mod Binding
pub mod Settling
pub mod Delivery
pub mod Returns
pub mod Recovery
pub mod Completion
