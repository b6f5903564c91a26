-- ===== src/Deployments.antt =====
-- The life of a deployment (apps/backend/src/modules/worker/jobs/deployments and
-- apps/backend/src/modules/deployments).
pub mod Logs
pub mod Enqueue
pub mod Claim
pub mod Request
pub mod Outcomes
pub mod Cancel
pub mod Reconcile
pub mod Rows
pub mod Writes
pub mod Admission
pub mod ClaimLaws
pub mod Batches
pub mod History
pub mod Terminal
pub mod Lookup
pub mod Cancellation
pub mod FailedRollback
pub mod StalledRollback
pub mod Attempts
pub mod Pauses
pub mod Progress
pub mod Examples
pub mod Slots
pub mod Fairness
