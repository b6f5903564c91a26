-- ===== src/Registry.antt =====
-- Pruning the image registry (apps/backend/src/modules/worker/jobs/registry/prune.ts).
pub mod Prune
pub mod Images
pub mod Groups
pub mod Joined
pub mod Live
pub mod Kept
pub mod Examples
