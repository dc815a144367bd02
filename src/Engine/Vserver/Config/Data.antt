-- ===== src/Engine/Vserver/Config/Data.antt =====
-- engine/config/types.go and engine/vserver.go: a configuration, and a vserver with the one it has.
use seesaw.Base.{ℕ, Bool, true, false, ◌&&◌, Option, none, some, List, [], ◌++◌, ◌==◌}
use seesaw.Engine.Marks.Defs.{MarkAllocator}
use seesaw.Engine.Healthchecks.Keys.{CheckKey, Healthcheck}
use seesaw.Engine.Vserver.Data.{Backend, VserverEntry, ServiceKey, Op}
use seesaw.Engine.Vserver.State.{Vserver}
use seesaw.Engine.Vserver.Events.{
  OverrideState, override_default, override_disable, override_enable,
}

pub data VipType : Type 0 where
  anycast_vip dedicated_vip unicast_vip : VipType

pub record Vip : Type 0 where
  pub ip : ℕ
  pub type : VipType

-- `config.Vserver`. The entries are under their keys; of the other maps only the values are read.
pub record Config : Type 0 where
  pub name : ℕ
  pub ipv4_addr : Option ℕ
  pub ipv6_addr : Option ℕ
  pub entries : List (ℕ × VserverEntry)
  pub backends : List Backend
  pub healthchecks : List Healthcheck
  pub vips : List Vip
  pub enabled : Bool
  pub use_fwm : Bool

pub record VserverOverride : Type 0 where
  pub vserver_name : ℕ
  pub state : OverrideState

-- What the map of the checks leads to.
pub record CheckRef : Type 0 where
  pub id : ℕ
  pub healthcheck : Healthcheck

-- A vserver with its configuration. `fwm_alloc` is the allocator that it shares with the others, a
-- mark of 0 is none, `nil_dests` are the keys of the services whose map `dests` was never made, and
-- `ops` is what was asked of the NCC and the load balancing interface so far.
pub record Configured : Type 0 where
  pub vserver : Vserver
  pub config : Option Config
  pub fwm_ipv4 : ℕ
  pub fwm_ipv6 : ℕ
  pub fwm_alloc : MarkAllocator
  pub check_refs : List (CheckKey × CheckRef)
  pub vips : List Vip
  pub override : VserverOverride
  pub nil_dests : List ServiceKey
  pub ops : List Op

-- `newVserver`
unfoldable pub new_vserver : MarkAllocator → Configured
new_vserver ma = record {
  vserver = record { enabled = false; services = []; checks = []; active = []; lb_vservers = [] };
  config = none;
  fwm_ipv4 = 0;
  fwm_ipv6 = 0;
  fwm_alloc = ma;
  check_refs = [];
  vips = [];
  override = record { vserver_name = 0; state = override_default };
  nil_dests = [];
  ops = [];
}

-- A step of the vserver itself.
abbrev pub apply : Configured → Vserver × List Op → Configured
apply c (v, ops) = record c { vserver = v; ops = c.ops ++ ops }

abbrev pub same_override_state : OverrideState → OverrideState → Bool
same_override_state override_default override_default = true
same_override_state override_disable override_disable = true
same_override_state override_enable override_enable = true
same_override_state _ _ = false

abbrev pub same_override : VserverOverride → VserverOverride → Bool
same_override a b = a.vserver_name == b.vserver_name && same_override_state a.state b.state

abbrev pub same_vip_type : VipType → VipType → Bool
same_vip_type anycast_vip anycast_vip = true
same_vip_type dedicated_vip dedicated_vip = true
same_vip_type unicast_vip unicast_vip = true
same_vip_type _ _ = false

abbrev pub same_vip : Vip → Vip → Bool
same_vip a b = a.ip == b.ip && same_vip_type a.type b.type

-- `vserverEnabled`
unfoldable pub vserver_enabled : Option Config → OverrideState → Bool
vserver_enabled none state = false
vserver_enabled (some config) override_disable = false
vserver_enabled (some config) override_enable = true
vserver_enabled (some config) override_default = config.enabled
