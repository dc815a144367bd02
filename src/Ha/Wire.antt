-- ===== src/Ha/Wire.antt =====
-- ha/net.go: advertisements as bytes, and their checksum. A byte is a number below 256. Sockets are
-- not modelled: `receive` starts from a packet that was read, and `send` ends in the bytes written.
pub mod Defs
pub mod Checksum
pub mod RoundTrip
