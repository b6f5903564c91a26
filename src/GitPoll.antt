-- ===== src/GitPoll.antt =====
-- Deploying new commits of a branch (apps/backend/src/modules/worker/jobs/git-poll).
pub mod WatchPaths
pub mod Poll
pub mod Once
pub mod Examples
pub mod Schedule
pub mod Claim
pub mod LsRemote
pub mod RefLines
pub mod RefsRead
