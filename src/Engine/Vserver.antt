-- ===== src/Engine/Vserver.antt =====
-- engine/vserver.go: the running state of a vserver, its services and their destinations. The Go code
-- links them by pointers in both directions; here a vserver holds its services and a service its
-- destinations, and a destination is named by the keys of its service and its own. What the code asks
-- of the NCC and of the load balancing interface is the list of operations that each function
-- returns, in order. Maps are walked in the order of their list, which may be any.
pub mod Data
pub mod Service
pub mod State
pub mod Settled
pub mod Addresses
pub mod Found
pub mod Services
pub mod Events
pub mod Health
pub mod Runs
pub mod Histories
pub mod TakenDown
pub mod Shutdown
pub mod Config
