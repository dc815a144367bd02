-- ===== src/Healthcheck/Ping.antt =====
-- The ping checker: healthcheck/ping.go.
pub mod Echo
pub mod Exchange
pub mod Buffer
pub mod Replies
pub mod Requests
