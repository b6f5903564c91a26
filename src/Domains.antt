-- ===== src/Domains.antt =====
-- Generated host names of services (packages/db/src/default-domain.ts).
pub mod Labels
pub mod Hosts
pub mod Valid
pub mod Bounds
pub mod Examples
