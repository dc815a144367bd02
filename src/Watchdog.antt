-- ===== src/Watchdog.antt =====
-- watchdog/: the services that a watchdog starts, restarts and stops. A service is named by a number.
pub mod Defs
pub mod Restarts
pub mod Stopping
