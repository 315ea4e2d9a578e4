-- ===== src/Reverse.antt =====
-- Reverse gear detection, src/reverse_service/src/reverse_detector.cpp and its header.
-- `Detector` has the state and the methods, `Gpio` the set-up of the line; the other children hold
-- the proofs. The service calls the methods from one loop, so they do not interleave.
pub mod Gpio
pub mod Detector
pub mod Readings
pub mod Debounce
pub mod Settling
pub mod Calls
mod Examples
