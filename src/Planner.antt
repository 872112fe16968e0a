-- ===== src/Planner.antt =====
-- internal/planner: from a set of manifests to the steps of a deploy.
pub mod Loader
pub mod Filter
pub mod Order
pub mod Enrich
pub mod Policy
pub mod Collisions
pub mod Templates
pub mod Resolve
pub mod Plan
pub mod HostPorts
pub mod Examples
use shrine.Prelude.{eq_int, eq_pair, eq_str}
