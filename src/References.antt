-- ===== src/References.antt =====
-- Service references: the placeholders in the configuration of a service that name another service of
-- its environment (apps/backend/src/shared/service-references.ts, and their resolution in
-- apps/backend/src/modules/worker/jobs/deployments/references.ts).
pub mod Tokens
pub mod Written
pub mod Parsed
pub mod Rename
pub mod Addresses
pub mod Checked
pub mod Verbatim
pub mod Configs
pub mod Deployed
pub mod Agreement
mod Decoded
mod Examples
