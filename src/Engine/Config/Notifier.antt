-- ===== src/Engine/Config/Notifier.antt =====
-- engine/config/notifier.go: the state of a `Notifier`, `NewNotifier` and `configCheck`. What the
-- sources answer is an argument.
use seesaw.Base.{
  ℕ, ◌+◌, Bool, true, false, ◌&&◌, Option, none, some, List, [], ◌∷◌, ltb, ◌==◌, not, if◌then◌else◌,
  lookup,
}
use seesaw.Engine.Config.Limit.{Vservers, rate_limit_vs}

pub data Source : Type 0 where
  source_none source_disk source_peer source_server : Source

-- `Cluster`; `status` and `rest` are the numbers of `Status` and of all fields but it and `Vservers`.
pub record Cluster : Type 0 where
  pub rest : ℕ
  pub status : ℕ
  pub vservers : Vservers

-- `pb.Cluster`; `last_updated` is `none` if there is no `Metadata`, and `body` is the number of all else.
pub record Protobuf : Type 0 where
  pub last_updated : Option ℕ
  pub body : ℕ

-- `protobuf` is `none` for `nil`.
pub record Notification : Type 0 where
  pub cluster : Cluster
  pub metadata_only : Bool
  pub protobuf : Option Protobuf
  pub source : Source

-- `DeepEqual` of two maps.
abbrev pub has_all : Vservers → Vservers → Bool
has_all other [] = true
has_all other ((name, vs) ∷ rest) =
    elim (lookup name other) [ none ↦ false | some v ↦ v == vs ] && has_all other rest

abbrev pub same_vservers : Vservers → Vservers → Bool
same_vservers a b = has_all b a && has_all a b

-- `Cluster.Equal`
abbrev pub same_cluster : Cluster → Cluster → Bool
same_cluster a b = a.rest == b.rest && a.status == b.status && same_vservers a.vservers b.vservers

-- What the sources answer, `none` for an error. `MetadataOnly` is exported and `protobuf` is not, so
-- that the RPC to the peer carries the first and not the second.
pub record Answers : Type 0 where
  pub disk : Option (Cluster × Protobuf)
  pub peer : Option (Cluster × Bool)
  pub server : Option (Cluster × Protobuf)

abbrev pub parsed : Source → Option (Cluster × Protobuf) → Option Notification
parsed s none = none
parsed s (some (cluster, protobuf)) =
    some (record { cluster = cluster; metadata_only = false; protobuf = some protobuf; source = s })

abbrev pub config_from_peer : Option (Cluster × Bool) → Option Notification
config_from_peer none = none
config_from_peer (some (cluster, metadata_only)) = some (record {
  cluster = cluster;
  metadata_only = metadata_only;
  protobuf = none;
  source = source_peer;
})

-- `pullConfig`
unfoldable pub pull_config : Answers → Source → Option Notification
pull_config answers source_none = none
pull_config answers source_disk = parsed source_disk answers.disk
pull_config answers source_peer = config_from_peer answers.peer
pull_config answers source_server = parsed source_server answers.server

-- A call of `saveConfig` with its `backup`.
pub record Saved : Type 0 where
  pub protobuf : Option Protobuf
  pub backup : Bool

-- `outgoing` is what the channel holds, which is one notification at most.
pub record Notifier : Type 0 where
  pub max_peer_config_sync_errors : ℕ
  pub source : Source
  pub last : Notification
  pub peer_failures : ℕ
  pub outgoing : Option Notification
  pub saved : List Saved

abbrev pub limited : Notification → Vservers → Notification
limited note old_vs = record note {
  cluster = record (note.cluster) { vservers = rate_limit_vs note.cluster.vservers old_vs };
}

-- `bootstrap`
unfoldable pub bootstrap : Answers → Option Notification
unfolding pull_config
bootstrap answers = elim (pull_config answers source_peer) [
  | some note ↦ some note
  | none ↦ elim (pull_config answers source_disk) [
    | some note ↦ some note
    | none ↦ pull_config answers source_server
  ]
]

abbrev pub is_disk : Source → Bool
is_disk source_disk = true
is_disk _ = false

-- Whether the file on the disk says something else.
abbrev pub disk_differs : Answers → Notification → Bool
disk_differs answers note = elim (pull_config answers source_disk) [
  | none ↦ true
  | some on_disk ↦ not (same_cluster on_disk.cluster note.cluster)
]

-- `NewNotifier`; `none` is its error.
unfoldable pub new_notifier : ℕ → Answers → Option Notifier
unfolding bootstrap rate_limit_vs
new_notifier max answers = elim (bootstrap answers) [
  | none ↦ none
  | some note ↦
      let note' = limited note [] in
      some (record {
        max_peer_config_sync_errors = max;
        source = source_server;
        last = note';
        peer_failures = 0;
        outgoing = some note';
        saved =
            if not (is_disk note'.source) && disk_differs answers note'
            then record { protobuf = note'.protobuf; backup = true } ∷ []
            else [];
      })
]

-- What a check pulls: it may leave off after an error of the peer, or go to the server.
pub data Pulled : Type 0 where
  left_off : Pulled
  pulled : Source → Option Notification → Pulled

unfoldable pub pull : Answers → Notifier → Pulled
unfolding pull_config
pull answers n = elim (pull_config answers n.source) [
  | some note ↦ pulled n.source (some note)
  | none ↦ elim (n.source) [
    | source_peer ↦
        if ltb (n.peer_failures + 1) n.max_peer_config_sync_errors
        then left_off
        else pulled source_server (pull_config answers source_server)
    | s ↦ pulled s none
  ]
]

-- `oldMeta != nil && newMeta != nil && oldMeta.GetLastUpdated() > newMeta.GetLastUpdated()`
abbrev pub out_of_date : Protobuf → Protobuf → Bool
out_of_date old new = elim (old.last_updated) [
  | none ↦ false
  | some before ↦ elim (new.last_updated) [ none ↦ false | some after ↦ ltb after before ]
]

-- The clusters are the same but for their status.
abbrev pub only_metadata : Cluster → Cluster → Bool
only_metadata new old = same_cluster (record new { status = 0 }) (record old { status = 0 })

-- From the comparison of the clusters on.
unfoldable pub publish : Source → Notification → Notifier → Notifier
unfolding rate_limit_vs
publish s note n =
    let only = if only_metadata note.cluster n.last.cluster then true else note.metadata_only in
    let note' = record (limited note n.last.cluster.vservers) { metadata_only = only } in
    if same_cluster note.cluster n.last.cluster then n else elim (n.outgoing) [
      | some full ↦ n
      | none ↦ record n {
        last = note';
        outgoing = some note';
        saved =
            if is_disk s
            then n.saved
            else record { protobuf = note.protobuf; backup = not only } ∷ n.saved;
      }
    ]

-- The test for an old configuration of a server; `none` is the panic of a `nil` protobuf.
unfoldable pub update : Source → Notification → Notifier → Option Notifier
unfolding publish
update source_disk note n = some (publish source_disk note n)
update source_peer note n = some (publish source_peer note n)
update s note n = elim (n.last.protobuf) [
  | none ↦ none
  | some old ↦ elim (note.protobuf) [
    | none ↦ none
    | some new ↦ some (if out_of_date old new then n else publish s note n)
  ]
]

-- `configCheck`; `none` is a panic.
unfoldable pub config_check : Answers → Notifier → Option Notifier
unfolding pull update
config_check answers n = elim (pull answers n) [
  | left_off ↦ some (record n { peer_failures = n.peer_failures + 1 })
  | pulled s none ↦ some (record n { peer_failures = 0 })
  | pulled s (some note) ↦ update s note (record n { peer_failures = 0 })
]

-- The engine takes what the channel holds.
abbrev pub receive : Notifier → Notifier
receive n = record n { outgoing = none }
