-- ===== src/Engine/SyncClient/References.antt =====
-- engine/sync.go: how often a connection is held.
use seesaw.Base.{ℕ, ◌+◌, ◌-◌, ◌≤◌, ◌<◌, ◌≡◌, Bool, List, [], ◌∷◌, arith, length, ltb, if◌then◌else◌}
use seesaw.Engine.SyncClient.Defs.{Connection, new_connection, dial, close, failover}

-- What the users of a client do: a dial, with what it meets, and the close of a holder.
pub data Event : Type 0 where
  dialled : (configured reached : Bool) → Event
  closed : Event

-- The connection and its holders. A close is called only after a dial that succeeded.
unfoldable pub step : Connection × ℕ → Event → Connection × ℕ
unfolding dial close
step (sc, holders) (dialled configured reached) =
    let (sc', ok) = dial sc configured reached in (sc', if ok then holders + 1 else holders)
step (sc, holders) closed = if ltb 0 holders then (close sc, holders - 1) else (sc, holders)

unfoldable pub replay : Connection × ℕ → List Event → Connection × ℕ
unfolding step
replay s [] = s
replay s (e ∷ es) = replay (step s e) es

pub record IsHeld (sc : Connection) (holders : ℕ) : Type 0 where
  pub counted : sc.refs ≡ holders
  pub open_while_held : sc.connected ≡ ltb 0 holders
  pub balanced : sc.dials ≡ sc.closes + (if sc.connected then 1 else 0)

step-IsHeld :
    (sc : Connection) (holders : ℕ) (e : Event)
    → holders + 1 < 18446744073709551616
    → IsHeld sc holders
    → IsHeld (step (sc, holders) e).0 (step (sc, holders) e).1
unfolding step
step-IsHeld sc holders (dialled configured reached) small v =
    ground (arith, v.counted, v.open_while_held, v.balanced)
step-IsHeld sc holders closed small v = ground (arith, v.counted, v.open_while_held, v.balanced)

step-bound : (s : Connection × ℕ) (e : Event) → (step s e).1 ≤ s.1 + 1
unfolding step
step-bound (sc, holders) (dialled configured reached) = ground arith
step-bound (sc, holders) closed = ground arith

replay-IsHeld :
    (s : Connection × ℕ) (es : List Event)
    → s.1 + length es < 18446744073709551616
    → IsHeld s.0 s.1
    → IsHeld (replay s es).0 (replay s es).1
unfolding replay
replay-IsHeld s [] small v = v
replay-IsHeld s (e ∷ es) small v =
    replay-IsHeld (step s e) es (omega (arith, step-bound s e))
      (step-IsHeld s.0 s.1 e (omega arith) v)

-- Whatever dials and closes its users make, fewer than 2^64 and each close after a dial of its own
-- that succeeded: the client counts its holders, is connected exactly while it has one, and has opened
-- as many connections as it has closed, and one more while it is connected.
pub replay-new_connection :
    (es : List Event)
    → length es < 18446744073709551616
    → IsHeld (replay (new_connection, 0) es).0 (replay (new_connection, 0) es).1
unfolding new_connection
replay-new_connection es small = replay-IsHeld (new_connection, 0) es (omega arith) (ground arith)

-- A failover request leaves a held connection as it was, and closes the one that it opened itself.
pub failover-IsHeld :
    (sc : Connection) (holders : ℕ) (configured reached answer : Bool)
    → holders + 1 < 18446744073709551616
    → IsHeld sc holders
    → IsHeld (failover sc configured reached answer).0 holders
unfolding failover dial close
failover-IsHeld sc holders configured reached answer small v =
    ground (arith, v.counted, v.open_while_held, v.balanced)
