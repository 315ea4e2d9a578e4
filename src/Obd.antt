-- ===== src/Obd.antt =====
-- OBD-II diagnostics, src/can_service/src/obd_handler.cpp and its header.
pub mod Descriptions
pub mod Codes
pub mod Request
pub mod Exchange
pub mod Answers
pub mod Supported
pub mod Pids
pub mod LiveData
pub mod Standard
pub mod LiveReads
pub mod Trouble
pub mod TroubleReads
pub mod Vin
pub mod Assembly
pub mod EcuName
pub mod Naming
mod Examples
