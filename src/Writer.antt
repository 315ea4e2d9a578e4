-- ===== src/Writer.antt =====
-- src/can_service/src/can_writer.cpp and its header: the commands that may be sent on the bus.
pub mod Bucket
pub mod Commands
pub mod Credit
pub mod Rate
pub mod Safety
pub mod Loading
mod Examples
