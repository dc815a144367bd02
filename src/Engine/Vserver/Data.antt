-- ===== src/Engine/Vserver/Data.antt =====
-- engine/vserver.go: the data, and the IPVS entries of a service and a destination.
use seesaw.Base.{ℕ, Bool, true, false, List, Option, ltb, if◌then◌else◌, u32}
use seesaw.Engine.Healthchecks.Keys.{Healthcheck}

pub data Af : Type 0 where
  ipv4 ipv6 : Af

pub data LbMode : Type 0 where
  lb_none dsr nat tun : LbMode

pub data LbScheduler : Type 0 where
  none_scheduler rr wrr lc wlc sh mh : LbScheduler

-- An IP address is the number that its 16 bytes spell; `none` is nil.
pub record Backend : Type 0 where
  pub hostname : ℕ
  pub ipv4_addr : Option ℕ
  pub ipv6_addr : Option ℕ
  pub enabled : Bool
  pub in_service : Bool
  pub weight : ℕ

-- A watermark is the bit pattern of its `float32`.
pub record VserverEntry : Type 0 where
  pub port : ℕ
  pub proto : ℕ
  pub mode : LbMode
  pub scheduler : LbScheduler
  pub persistence : ℕ
  pub one_packet : Bool
  pub high_watermark : ℕ
  pub low_watermark : ℕ
  pub lower_threshold : ℕ
  pub upper_threshold : ℕ
  pub healthchecks : List Healthcheck

pub record ServiceKey : Type 0 where
  pub af : Af
  pub fwm : ℕ
  pub proto : ℕ
  pub port : ℕ

-- The flags of `ipvs.ServiceFlags` that are set.
pub record ServiceFlags : Type 0 where
  pub persistent : Bool
  pub one_packet : Bool
  pub sched_sh : Bool
  pub sched_mh : Bool

-- `ipvs.Service`; `ip_zero` is `net.IPv4zero` or `net.IPv6zero` of its family.
pub data ServiceAddress : Type 0 where
  ip_zero : Af → ServiceAddress
  ip_of : ℕ → ServiceAddress

pub record IpvsService : Type 0 where
  pub address : ServiceAddress
  pub protocol : ℕ
  pub port : ℕ
  pub scheduler : LbScheduler
  pub firewall_mark : ℕ
  pub flags : ServiceFlags
  pub timeout : ℕ

pub data Forward : Type 0 where
  unspecified route masq tunnel : Forward

pub record IpvsDestination : Type 0 where
  pub address : ℕ
  pub port : ℕ
  pub weight : ℕ
  pub flags : Forward
  pub lower_threshold : ℕ
  pub upper_threshold : ℕ

-- `checks`: the keys of the checks that the destination points to.
pub record Destination : Type 0 where
  pub ip : ℕ
  pub backend : Backend
  pub ipvs_dst : IpvsDestination
  pub weight : ℕ
  pub checks : List ℕ
  pub healthy : Bool
  pub active : Bool

pub record Service : Type 0 where
  pub key : ServiceKey
  pub vip : ℕ
  pub ventry : VserverEntry
  pub ipvs_svc : IpvsService
  pub dests : List Destination
  pub healthy : Bool
  pub active : Bool

-- `service.ipvsService`
unfoldable pub ipvs_service : ServiceKey → ℕ → VserverEntry → IpvsService
ipvs_service key vip ventry = record {
  address = if ltb 0 key.fwm then ip_zero key.af else ip_of vip;
  protocol = key.proto;
  port = key.port;
  scheduler = ventry.scheduler;
  firewall_mark = key.fwm;
  flags = record {
    persistent = ltb 0 ventry.persistence;
    one_packet = ventry.one_packet;
    sched_sh = elim (ventry.scheduler) [ sh ↦ true | _ ↦ false ];
    sched_mh = elim (ventry.scheduler) [ mh ↦ true | _ ↦ false ];
  };
  timeout = u32 ventry.persistence;
}

abbrev pub forward_flags : LbMode → Forward
forward_flags lb_none = unspecified
forward_flags dsr = route
forward_flags nat = masq
forward_flags tun = tunnel

-- `destination.ipvsDestination`
unfoldable pub ipvs_destination : ServiceKey → VserverEntry → ℕ → ℕ → IpvsDestination
ipvs_destination key ventry ip weight = record {
  address = ip;
  port = key.port;
  weight = weight;
  flags = forward_flags ventry.mode;
  lower_threshold = u32 ventry.lower_threshold;
  upper_threshold = u32 ventry.upper_threshold;
}

-- A call of the NCC or of the load balancing interface.
pub data Op : Type 0 where
  add_service delete_service update_service : IpvsService → Op
  add_destination delete_destination update_destination : IpvsService → IpvsDestination → Op
  bgp_advertise bgp_withdraw : ℕ → Op
  add_vip delete_vip : ℕ → Op
  add_vserver delete_vserver : ℕ → Op

-- What the code reads of its environment: the anycast networks, the engine's `AnycastEnabled`, and
-- `float32(healthy) / float32(backends) >= threshold`.
pub record Env : Type 0 where
  pub is_anycast : ℕ → Bool
  pub anycast_enabled : Bool
  pub meets : ℕ → ℕ → ℕ → Bool
