-- ===== src/Tests.antt =====
-- Each theorem with hypotheses at a concrete input, by the part of the program that it is about.
mod Ha
mod Healthcheck
mod Engine
mod Cluster
mod Healthchecks
mod Configurations
mod Watchdog
mod Core
mod Manager
mod Config
mod Ipc
mod Radius
mod Protos
mod SyncLoop
mod Ping
