-- ===== src/Wideband.antt =====
-- The wideband forwarder of src/can_service/src/wideband_forwarder.cpp.
pub mod Forwarder
pub mod Encoding
mod Examples
