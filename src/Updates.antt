-- ===== src/Updates.antt =====
-- Platform updates: the update_runs table and the worker's reconciler.
pub mod Pods
pub mod Runs
pub mod Laws
pub mod Examples
