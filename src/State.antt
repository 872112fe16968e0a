-- ===== src/State.antt =====
-- internal/state: the records that outlive a deploy.
pub mod HostPorts
pub mod Deployments
pub mod Subnets
pub mod Pins
use shrine.Prelude.{eq_int, eq_pair, eq_str}
