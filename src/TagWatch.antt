-- ===== src/TagWatch.antt =====
-- Deploying new digests of an image tag (apps/backend/src/modules/worker/jobs/registry-tag-watch).
pub mod Watch
pub mod Client
pub mod Fetch
pub mod Credentials
mod Examples
