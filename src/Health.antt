-- ===== src/Health.antt =====
-- src/common/src/system_health.cpp and its header: the health of the subsystems and the mode.
pub mod State
pub mod Methods
pub mod Modes
pub mod Runs
pub mod Shutdown
pub mod Timeouts
mod Examples
