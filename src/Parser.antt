-- ===== src/Parser.antt =====
-- The decoding of signals and the engine data: src/can_service/src/can_parser.cpp.
pub mod Extract
pub mod Engine
pub mod Values
pub mod Warnings
pub mod Thresholds
pub mod Store
pub mod Database
pub mod Protocols
pub mod Numbers
pub mod Ranges
mod Examples
