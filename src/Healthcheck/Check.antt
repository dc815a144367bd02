-- ===== src/Healthcheck/Check.antt =====
-- healthcheck/core.go: one healthcheck. A checker is what it answers: the results of its runs are the
-- input. The notification channel is the list of what was put on it.
pub mod Defs
pub mod Hysteresis
pub mod Traces
