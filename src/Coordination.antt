-- ===== src/Coordination.antt =====
-- The coordination module (src/coordination): agents, assignments, file locks, circuit breakers.
pub mod Schema
pub mod Circuit
pub mod FailureModes
pub mod Stale
pub mod Tokens
pub mod Locks
pub mod Assignments
pub mod Reassign
pub mod Agents
pub mod Dispatch
pub mod Next
pub mod Mutex
pub mod Commands
pub mod Channel
mod Examples
pub mod RateLimit
