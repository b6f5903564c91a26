-- ===== src/Store.antt =====
-- The database tables that the deployment and build subsystems share (packages/db/src/schema.ts).
-- An id is a number that stands for the uuid, a time is in milliseconds, and a column that may be
-- null is an option.
mod Config
mod DeploymentTables
mod BuildTables
mod Services
pub mod Environments
pub mod Samples
pub mod Cascade
pub use Config.*
pub use DeploymentTables.*
pub use BuildTables.*
pub use Services.*
use kubwave.Common.{List}

pub record Store : Type 0 where
  pub deployments : List Deployment
  pub deployment_logs : List DeploymentLog
  pub build_runs : List BuildRun
  pub build_agents : List BuildAgent
