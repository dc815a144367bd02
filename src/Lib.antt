-- ===== src/Lib.antt =====
-- Seesaw, a load balancer on Linux Virtual Server: its high availability component, its health
-- checking component, the parts of its engine that decide what is up, and its watchdog.
--
-- The parts and how they interact. A cluster has two nodes. On each, `ha` exchanges VRRP
-- advertisements with its peer and tells the engine whether the node is the leader; `healthcheck`
-- runs the checks that the engine asks for and notifies it when one changes; the engine brings
-- virtual servers up and down by these notifications, takes on the role of its HA state, and keeps
-- its peer informed over a synchronisation session.
--
-- Base passes on the library's names and holds the Boolean tests, lists and association lists that
-- the components share.
--
-- Ha/Node is ha/core.go: `Defs` holds `Node` with its configuration, status, queue of received
-- advertisements and whether its sender goroutine runs, and one function for each method
-- (`doMasterTasks` is do_master_tasks, `runOnce` is run_once, and so on). `sent` and `told` log
-- what the node sent and told the engine. A `select` takes the channel that a `Wake` names.
-- `Invariant` is about the interleavings of the goroutines, `Election` about who is master,
-- `Timing` about when a backup takes over. Ha/Wire is ha/net.go: checksum, encoding, and what send
-- and receive do with a packet.
--
-- Healthcheck is healthcheck/core.go: Check is one check and the loop that runs it, Notifier the
-- batches of notifications, Manager what a new set of configurations does to the running checks.
--
-- Engine/Vserver is engine/vserver.go: `Data` and `Service` hold the data and what a service does
-- by itself, `State` how an address and its services drive one another, `Events` the notifications
-- and overrides that drive them, and `down_all`. The pointers between vservers, services and
-- destinations are keys; every change returns the calls of the NCC and the load balancing
-- interface in order, as `Op`s. `Settled`, `Addresses`, `Found`, `Services`, `Runs` and
-- `Histories` build up the main invariant, `TakenDown` and `Shutdown` are about `downAll`,
-- `Health` is about single services and addresses. Engine/Vserver/Config is how a vserver takes
-- on a configuration: `Data` holds `config.Vserver` and the vserver with what it has of it,
-- `Expand` and `Checks` are expandServices, expandDests and expandChecks, `Vips` is configureVIPs
-- and its counterparts, `Equal` ipvsEqual, `Services`, `Dests` and `Update` are configUpdate,
-- configInit and handleConfigUpdate, and `Run` is the loop of run. A check is the number of an
-- object on a heap, so that two keys may share one and one may be left behind. `Start` and
-- `Settles` are about the first configuration, `Links` and `Pointers` about checks and
-- destinations, `Families`, `Disabled` and `Deletion` about single updates.
--
-- Engine/Healthchecks is engine/healthcheck.go: `Keys` and `Marks` are the keys of checkers and the
-- marks of backends, `Checkers` is newConfig, `Defs` the manager with buildMaps and the
-- notifications that it passes on. It is sent what `healthchecks` of Engine/Vserver/Config/Checks
-- returns, and tells the vservers what their loop takes as `check_notified`. `Delivery`, `Twins`
-- and `Histories` are about its notifications, ids and marks.
--
-- Engine/Marks and Engine/HaManager are the mark
-- allocator of engine/core.go and engine/ha.go; the latter includes what the engine does when it
-- becomes master or backup (engine/core.go, engine/sync.go). Engine/Sync is the server side of
-- engine/sync.go: `Delivery` is about the notes of one session, `Sessions` about the sessions of a
-- server. Engine/SyncClient is the connection of the client in the same file: `dial`, `close` and
-- `failover` with their reference count; `Loop` is its `run` with the polling, the notes that it handles,
-- `enable` and `disable`, as steps that interleave with those of the engine's manager, and `Deadlock` is
-- about when the two wait for one another. Engine/Access is engine/access.go.
--
-- Engine/Core is the part of engine/core.go that reloads a cluster configuration: which vservers
-- run, the VLAN interfaces, and the overrides, with the queues between the engine and its
-- vservers. That a configuration equals the current one is the argument `deep_equal`, for
-- reflect.DeepEqual. `Manager` composes these, the HA manager, the synchronisation server and the
-- access map as the notification's case of `manager` does, with `thisNode` and `updateARPMap`; a goroutine that it starts
-- for `updateVservers` is a step of its own, which may come at any later time, but does not overlap
-- others; what
-- the net package says of an address is the arguments `contains` and `is_ipv4`.
--
-- Engine/Config is engine/config/notifier.go: `Limit` is rateLimitVS, and `Notifier` the bootstrap and
-- the check of the sources, whose answers are an argument; `Rounds` and `Checks` follow a new
-- configuration through the limit, and `Peers` is about an engine that starts with the configuration
-- of its peer. A panic of a nil protobuf is the result `none`. `Protos`, `Nodes` and `Vservers` are what
-- engine/config/config.go makes of a protobuf, with the adding methods of engine/config/types.go;
-- sorting, printing and the parsing of addresses are arguments. `Archive` is pruneArchive.
--
-- Engine/Ipc is engine/ipc.go with common/ipc/ipc.go: `Context` and its groups, `Server` for what the
-- calls read and change, `Handlers` for the calls, `Calls` for all of them as one function, and
-- `Rights`. `Ecu` is ecu/control.go with ecu/auth.go; the authenticator and the connection to the
-- engine are the argument `connect`.
--
-- Healthcheck/Radius is healthcheck/radius.go. A read of bytes is a function on lists, the loop of
-- `decode` has one unit of fuel for each byte and one more, and crypto/md5 is the argument `md5`.
--
-- Healthcheck/Ping is healthcheck/ping.go: `Echo` is the echo request with its checksum and parsing,
-- `Exchange` the checker and its loop over the datagrams that arrive, which all go to one buffer. What
-- becomes of the socket is an argument, and so is what `ReadFrom` makes of the buffer. `Buffer` is about that buffer, `Requests` and `Replies` about
-- what is sent and what makes a ping succeed.
--
-- Watchdog is watchdog/core.go and watchdog/service.go: `Defs` holds a service with its tokens and
-- counters, `Restarts` is about the counters, and `Stopping` about the order in which services
-- stop. A `stop` is one step, which is taken when it can go through.
--
-- Tests applies the theorems at concrete inputs.
--
-- Numbers, bounds and fuel. Times and durations are numbers of nanoseconds, without the overflow
-- of int64. Unsigned counters and fields wrap at their width, which is written out (u8, u16, u32,
-- u64). IP addresses of vservers, texts and names are numbers; addresses of HA nodes are their
-- bytes. Retries of a check are the uint64 that the code converts them to. A watermark is the bit
-- pattern of its float32, and the comparison of a ratio with it is the argument `meets` of the
-- environment, of which nothing is assumed. The loop that folds a checksum has fuel 3, which is
-- enough for any 32-bit sum (Ha.Wire.Checksum.fold_total). The loop of `send` has one unit of fuel
-- more than its configured number of failures, which is enough for any answers. Maps are
-- association lists, and a loop over a map goes through them in the order of the list, which is
-- any.
--
-- Not modelled: sockets, RPC and IPC transport, timers as such (the time at which something
-- happens is an argument), logging, statistics and snapshots; calls that end the process on an
-- error are taken to succeed, but for the notifier, the healthcheck manager of the engine and the
-- configuration of a vserver, whose end is their `none`. The VLANs of a configuration's
-- protobuf, the NCC, netlink, IPVS, Quagga and command line components, and the checkers but for
-- RADIUS and ping, are not modelled.
pub mod Base
pub mod Ha
pub mod Healthcheck
pub mod Engine
pub mod Watchdog
mod Tests
