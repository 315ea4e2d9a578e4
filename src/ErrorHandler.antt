-- ===== src/ErrorHandler.antt =====
-- CAN error handling, src/can_service/src/can_error_handler.cpp and its header.
-- `State` has the data, `Text` the rendering of protocol errors, `Process` the handler's methods,
-- `Recovery` the restart of the interface; the other children hold the proofs.
pub mod State
pub mod Text
pub mod Process
pub mod Transitions
pub mod Statistics
pub mod Totals
pub mod Callbacks
pub mod Events
pub mod Changes
pub mod Reset
pub mod Recovery
pub mod Restarts
mod Examples
