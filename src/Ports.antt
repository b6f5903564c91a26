-- ===== src/Ports.antt =====
-- Public TCP ports of services (apps/backend/src/modules/services/port-exposures.ts).
pub mod Pool
pub mod Laws
pub mod Examples
pub mod Wanted
