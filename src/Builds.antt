-- ===== src/Builds.antt =====
-- The build subsystem: queue, leases and build servers.
pub mod Runs
pub mod Maintain
pub mod Agents
pub mod Tasks
pub mod Results
pub mod Rows
pub mod Writes
pub mod TaskWrites
pub mod History
pub mod Ended
pub mod SweepRound
pub mod Sweep
pub mod Capacity
pub mod Leases
pub mod Limits
pub mod Access
pub mod Examples
