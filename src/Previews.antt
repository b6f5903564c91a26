-- ===== src/Previews.antt =====
-- Preview environments of pull requests (apps/backend/src/modules/worker/jobs/pr-preview).
pub mod Plan
pub mod Clone
pub mod Discovery
pub mod Bounds
pub mod Replicas
pub mod Kept
pub mod Collision
pub mod Examples
