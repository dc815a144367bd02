-- ===== src/Ha/Node.antt =====
-- ha/core.go: one member of a VRRP pair. The channels, goroutines and the two peers of `Node` (the
-- connection and the engine) are explicit: `recv_channel` is the queue, `sender` says whether
-- `sendAdvertisements` runs, `sent` and `told` log what went to the connection and the engine,
-- newest first. A `select` is decided by a `Wake`, which names the channel that was taken.
-- Times and durations are nanoseconds.
pub mod Defs
pub mod Invariant
pub mod Election
pub mod Timing
pub use Defs.{HaState, Advertisement, NodeConfig, HaStatus, Node, Wake, Outcome}
