-- ===== src/Engine/Config/Nodes.antt =====
-- engine/config/config.go: the nodes of a cluster, with `AddNode` of engine/config/types.go.
use seesaw.Base.{
  ℕ, ◌+◌, ◌-◌, Bool, true, false, not, ◌||◌, Option, none, some, List, [], ◌∷◌, ◌++◌, ◌==◌, u8,
  if◌then◌else◌, length,
}
use seesaw.Ha.Node.Defs.{HaState, unknown, disabled}

-- `pb.Host_Status`
pub data HostStatus : Type 0 where
  production testing building standby failure host_disabled proposed : HostStatus

abbrev pub status_number : HostStatus → ℕ
status_number production = 1
status_number testing = 2
status_number building = 3
status_number standby = 4
status_number failure = 5
status_number host_disabled = 6
status_number proposed = 7

-- `pb.Host`; texts are numbers.
pub record PbHost : Type 0 where
  pub fqdn : ℕ
  pub ipv4 : ℕ
  pub ipv6 : ℕ
  pub status : HostStatus

-- `seesaw.Node`
pub record Node : Type 0 where
  pub hostname : ℕ
  pub ipv4_addr : Option ℕ
  pub ipv6_addr : Option ℕ
  pub state : HaState
  pub priority : ℕ
  pub anycast_enabled : Bool
  pub bgp_enabled : Bool
  pub vservers_enabled : Bool

abbrev pub is_ha_enabled : HostStatus → Bool
is_ha_enabled production = true
is_ha_enabled testing = true
is_ha_enabled building = true
is_ha_enabled _ = false

abbrev pub serves : HostStatus → Bool
serves production = true
serves testing = true
serves _ = false

abbrev pub is_building : HostStatus → Bool
is_building building = true
is_building _ = false

-- The loop that gives the priorities, over so many nodes.
unfoldable pub set_priorities : ℕ → ℕ → List Node → List Node
set_priorities count i [] = []
set_priorities count i (n ∷ nodes) =
    record n { priority = if i == 0 then 255 else u8 (count - i) }
    ∷ set_priorities count (i + 1) nodes

abbrev pub has_hostname : ℕ → List Node → Bool
has_hostname h [] = false
has_hostname h (n ∷ nodes) = if n.hostname == h then true else has_hostname h nodes

-- `parse` is `parseCIDR`, by the address, and `sort` is `sort.Sort` by the IPv4 addresses.
module _ (parse : ℕ → Option ℕ) (sort : List Node → List Node) where
  -- The node that is made in the first loop.
  unfoldable pub new_node : HostStatus → PbHost → Node
  new_node vip_status n = record {
    hostname = n.fqdn;
    ipv4_addr = parse n.ipv4;
    ipv6_addr = parse n.ipv6;
    state =
        if not (is_ha_enabled vip_status)
          || not (status_number vip_status == status_number n.status)
        then disabled
        else unknown;
    priority = 0;
    anycast_enabled = serves n.status;
    bgp_enabled = serves n.status || is_building n.status;
    vservers_enabled = serves n.status;
  }

  -- The first loop; `none` is the error of `AddNode`.
  unfoldable pub make_nodes : HostStatus → List Node → List PbHost → Option (List Node)
  unfolding new_node
  make_nodes vip_status nodes [] = some nodes
  make_nodes vip_status nodes (p ∷ ps) =
      let rest = make_nodes vip_status (nodes ++ new_node vip_status p ∷ []) ps in
      if has_hostname p.fqdn nodes then none else rest

  -- `addNodes`
  unfoldable pub add_nodes : HostStatus → List PbHost → Option (List Node)
  unfolding make_nodes set_priorities
  add_nodes vip_status ps = elim (make_nodes vip_status [] ps) [
    | none ↦ none
    | some nodes ↦ some (set_priorities (length nodes) 0 (sort nodes))
  ]
