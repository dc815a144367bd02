-- ===== src/Healthcheck/Notifier.antt =====
-- healthcheck/core.go: `notifier` and `send`, which batch notifications for the engine. The engine's
-- answers are a function from the attempt to whether `sendBatch` returned no error; `delivered` logs
-- the batches that were acknowledged.
pub mod Defs
pub mod Batches
