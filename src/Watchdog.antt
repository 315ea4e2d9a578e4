-- ===== src/Watchdog.antt =====
-- The watchdog notifier of src/common/src/watchdog_notifier.cpp.
pub mod Notifier
pub mod Rounds
mod Examples
