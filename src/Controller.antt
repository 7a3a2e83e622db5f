-- ===== src/Controller.antt =====
-- pkg/controller: the control loop of the autoscaler.
pub mod Desired
pub mod Scale
pub mod Cluster
pub mod Retry
pub mod Inputs
pub mod Handler
pub mod WorkQueue
pub mod Start
