-- ===== src/Engine/Config/Peers.antt =====
-- engine/config/notifier.go: a notifier that starts with the configuration of its peer.
use seesaw.Base.{ℕ, ◌≡◌, Bool, true, none, some, arith, refl}
use seesaw.Engine.Vserver.Data.{Env}
use seesaw.Engine.Core.Defs.{Vlan}
use seesaw.Engine.Core.Manager as Manager
use seesaw.Engine.Config.Notifier.{
  Cluster, Protobuf, Notification, Answers, Notifier, new_notifier, config_check, receive,
}

-- A notifier that started with the configuration of its peer panics at the first check that finds one
-- on the server, whatever it says.
pub config_check-new_notifier :
    (max : ℕ) (answers later : Answers) (n : Notifier) (cluster : Cluster) (only : Bool)
    (server : Cluster × Protobuf)
    → new_notifier max answers ≡ some n
    → answers.peer ≡ some (cluster, only)
    → later.server ≡ some server
    → config_check later (receive n) ≡ none
unfolding new_notifier config_check
config_check-new_notifier max answers later n cluster only server made from_peer found =
    ground arith

new_notifier-metadata_only :
    (max : ℕ) (answers : Answers) (n : Notifier) (cluster : Cluster)
    → new_notifier max answers ≡ some n
    → answers.peer ≡ some (cluster, true)
    → (n.outgoing ≡ some n.last) × (n.last.metadata_only ≡ true)
unfolding new_notifier
new_notifier-metadata_only max answers n cluster made from_peer = ground arith

-- When the last change of the peer's configuration was one of metadata only, a notifier that starts
-- with it tells its engine so of the whole configuration: the vservers, the VLANs and the ARP map of
-- the engine stay what they were.
pub handle_notification-new_notifier :
    (contains : Vlan → ℕ → Bool) (is_ipv4 : ℕ → Bool) (env : Env) (settings : Manager.Settings)
    (max now : ℕ) (answers : Answers) (n : Notifier) (note : Notification) (cluster : Cluster)
    (s : Manager.State) (received : Manager.Notification)
    → new_notifier max answers ≡ some n
    → answers.peer ≡ some (cluster, true)
    → n.outgoing ≡ some note
    → received.metadata_only ≡ note.metadata_only
    → ((Manager.handle_notification contains is_ipv4 env settings s received now).engine ≡ s.engine)
      × ((Manager.handle_notification contains is_ipv4 env settings s received now).arp_map
          ≡ s.arp_map)
      × ((Manager.handle_notification contains is_ipv4 env settings s received now).starting
          ≡ s.starting)
unfolding Manager.handle_notification
handle_notification-new_notifier contains is_ipv4 env settings max now answers n note cluster s
      received made from_peer sent same =
    let (out, only) = new_notifier-metadata_only max answers n cluster made from_peer in
    let told : received.metadata_only ≡ true = cc in rw (told) (refl, refl, refl)
