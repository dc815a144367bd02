-- ===== src/Healthcheck/Radius.antt =====
-- healthcheck/radius.go: the packets of the RADIUS checker, and what it makes of a response.
pub mod Packet
pub mod Decode
pub mod RoundTrip
pub mod Checker
pub mod Verdict
