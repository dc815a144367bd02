-- ===== src/Engine/Ipc.antt =====
-- engine/ipc.go: who may ask the engine for what, with the contexts of common/ipc/ipc.go and the calls
-- that ecu/control.go and ecu/auth.go pass on.
pub mod Context
pub mod Server
pub mod Handlers
pub mod Calls
pub mod Rights
pub mod Ecu
