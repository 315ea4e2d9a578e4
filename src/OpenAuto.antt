-- ===== src/OpenAuto.antt =====
-- The controller of OpenAuto, src/hmi_launcher/src/openauto_controller.cpp.
pub mod State
pub mod Slots
pub mod Output
pub mod Control
pub mod Devices
pub mod Steps
pub mod Supervisor
pub mod Following
pub mod Machine
pub mod Reachable
pub mod Loop
mod Examples
