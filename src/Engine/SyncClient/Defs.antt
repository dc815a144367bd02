-- ===== src/Engine/SyncClient/Defs.antt =====
-- engine/sync.go: `dial`, `close` and `failover` of `syncClient`. TLS and the connection are arguments:
-- whether the configuration can be made, whether the dial succeeds, and what the calls return.
use seesaw.Base.{ℕ, ◌+◌, Bool, true, false, ltb, if◌then◌else◌, u64}

-- `connected`: `client` is not nil. `refs` is a `uint` of 64 bits.
pub record Connection : Type 0 where
  pub connected : Bool
  pub refs : ℕ
  pub dials : ℕ
  pub closes : ℕ

unfoldable pub new_connection : Connection
new_connection = record { connected = false; refs = 0; dials = 0; closes = 0 }

-- `dial`, and whether it returned nil.
unfoldable pub dial : Connection → (configured reached : Bool) → Connection × Bool
dial sc configured reached =
    if sc.connected
    then (record sc { refs = u64 (sc.refs + 1) }, true)
    else if configured
    then if reached
      then (record sc { connected = true; refs = 1; dials = sc.dials + 1 }, true)
      else (sc, false)
    else (sc, false)

-- `close`; the error of `client.Close` changes only what it returns. The subtraction does not wrap on a
-- connected client.
unfoldable pub close : Connection → Connection
close sc =
    if sc.connected
    then (let refs = u64 (sc.refs + 18446744073709551615) in
        if ltb 0 refs
        then record sc { refs = refs }
        else record sc { connected = false; refs = refs; closes = sc.closes + 1 })
    else sc

-- `failover`, with what the RPC returns: the connection as it is during the call, and after it.
unfoldable pub failover : Connection → (configured reached answer : Bool) → Connection × Bool
unfolding dial close
failover sc configured reached answer =
    let (held, dialled) = dial sc configured reached in
    if dialled then (close held, answer) else (held, false)
