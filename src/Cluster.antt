-- ===== src/Cluster.antt =====
-- The BMW cluster simulator of src/can_service/src/bmw_cluster_sim.cpp.
pub mod State
pub mod Frames
pub mod Ticks
pub mod Rates
pub mod Encoding
pub mod Counts
mod Examples
