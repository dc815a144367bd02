-- ===== src/Healthcheck.antt =====
-- The healthcheck component: healthcheck/core.go, and the RADIUS checker of healthcheck/radius.go.
pub mod Check
pub mod Notifier
pub mod Manager
pub mod Radius
pub mod Ping
