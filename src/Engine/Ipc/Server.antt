-- ===== src/Engine/Ipc/Server.antt =====
-- engine/ipc.go: what the calls read and change of the engine, and what they answer.
use seesaw.Base.{ℕ, Bool, Option, List}
use seesaw.Ha.Node.Defs.{HaState}
use seesaw.Engine.HaManager.Defs as HaManager
use seesaw.Engine.HaManager.Defs.{FailoverReply}
use seesaw.Engine.Healthchecks.Defs as Healthchecks
use seesaw.Engine.Healthchecks.Checkers as Checkers
use seesaw.Engine.Vserver.Data.{Backend}
use seesaw.Engine.Core.Defs.{Vlan, Override}
use seesaw.Engine.Core.Manager as Manager
use seesaw.Engine.Config.Notifier.{Notifier, Source}

-- The channels of the HA manager hold one item each. `notes` are the health states that were queued for
-- the vservers, and `overrides` those that the engine's manager was sent, the latest last. `reload` is
-- what the notifier's channel holds. `cluster` is the number of what the status calls copy of the
-- cluster, `none` before one is loaded.
pub record Server : Type 0 where
  pub manager : Manager.State
  pub local_node : Option Manager.Node
  pub state_chan : Option HaState
  pub status_chan : Option HaManager.Status
  pub hc_manager : Healthchecks.Manager
  pub notes : Healthchecks.Queues
  pub overrides : List Override
  pub notifier : Notifier
  pub reload : Bool
  pub cluster : Option ℕ
  pub neighbors : ℕ
  pub vserver_snapshots : List (ℕ × ℕ)

-- `err_context` to `err_reload` are the errors.
pub data Reply : Type 0 where
  err_args err_context err_access err_nil err_full err_node err_cluster err_source err_reload :
      Reply
  done : Reply
  failover_reply : FailoverReply → Reply
  failover_pending : Bool → Reply
  ha_config : Manager.Node → Reply
  ha_status : HaManager.Status → Reply
  checks : Option (List (ℕ × Checkers.Config)) → Reply
  status_of : ℕ → Reply
  old_source : Source → Reply
  neighbors : ℕ → Reply
  vlans : List (ℕ × Vlan) → Reply
  vservers : List (ℕ × ℕ) → Reply
  backends : List (ℕ × Backend) → Reply
