-- ===== src/Engine/Config/Vservers.antt =====
-- engine/config/config.go: the vservers of a cluster, with the methods of `Vserver` in
-- engine/config/types.go that add to its maps.
use seesaw.Base.{
  ℕ, Bool, true, false, not, ◌&&◌, Option, none, some, List, [], ◌∷◌, ◌++◌, ◌==◌, u16, u32,
  if◌then◌else◌, lookup, is_some,
}
use seesaw.Engine.Healthchecks.Keys.{HealthcheckType, Healthcheck}
use seesaw.Engine.Vserver.Data.{
  Backend, LbMode, dsr, nat, tun, LbScheduler, rr, wrr, lc, wlc, sh, mh, VserverEntry,
}
use seesaw.Engine.Vserver.Config.Data.{Vip, VipType, Config}
use seesaw.Engine.Access.Defs.{AccessGrant}
use seesaw.Engine.Config.Protos.{PbHealthcheck, protos_to_healthchecks, add_healthchecks}
use seesaw.Engine.Config.Nodes.{PbHost, HostStatus, serves, is_building, proposed}

pub data PbProtocol : Type 0 where
  pb_tcp pb_udp other_protocol : PbProtocol

pub data PbScheduler : Type 0 where
  pb_rr pb_wrr pb_lc pb_wlc pb_sh pb_mh other_scheduler : PbScheduler

pub data PbMode : Type 0 where
  pb_dsr pb_nat pb_tun other_mode : PbMode

-- The two `switch` statements.
abbrev pub lb_scheduler : PbScheduler → Option LbScheduler
lb_scheduler pb_rr = some rr
lb_scheduler pb_wrr = some wrr
lb_scheduler pb_lc = some lc
lb_scheduler pb_wlc = some wlc
lb_scheduler pb_sh = some sh
lb_scheduler pb_mh = some mh
lb_scheduler other_scheduler = none

abbrev pub lb_mode : PbMode → Option LbMode
lb_mode pb_dsr = some dsr
lb_mode pb_nat = some nat
lb_mode pb_tun = some tun
lb_mode other_mode = none

-- `pb.VserverEntry`
pub record PbEntry : Type 0 where
  pub protocol : PbProtocol
  pub scheduler : PbScheduler
  pub mode : PbMode
  pub port : ℕ
  pub persistence : ℕ
  pub one_packet : Bool
  pub high_watermark : ℕ
  pub low_watermark : ℕ
  pub lthreshold : ℕ
  pub uthreshold : ℕ
  pub healthchecks : List PbHealthcheck

pub record PbBackend : Type 0 where
  pub host : PbHost
  pub weight : ℕ

pub record PbGrant : Type 0 where
  pub grantee : ℕ
  pub is_group : Bool

pub record PbVserver : Type 0 where
  pub name : ℕ
  pub entry_address : PbHost
  pub use_fwm : Bool
  pub entries : List PbEntry
  pub backends : List PbBackend
  pub healthchecks : List PbHealthcheck
  pub access_grants : List PbGrant

-- The warnings that are added to those of the protobuf.
pub data Warning : Type 0 where
  unsupported_protocol unsupported_scheduler unsupported_mode : Warning

pub record Vserver : Type 0 where
  pub config : Config
  pub access_grants : List AccessGrant
  pub warnings : List Warning

pub data Translated : Type 0 where
  entry : VserverEntry → Translated
  warned : Warning → Translated

abbrev pub is_proposed : HostStatus → Bool
is_proposed proposed = true
is_proposed _ = false

-- What the translation takes from elsewhere: `sort.Sort`, the printing of names and keys, the order of
-- `float32`, `parseCIDR`, and the type of `NewVIP` in the subnets of the cluster.
pub record Library : Type 0 where
  pub sort : List Healthcheck → List Healthcheck
  pub name : HealthcheckType → ℕ → ℕ → ℕ
  pub entry_key : ℕ → ℕ → ℕ
  pub grant_key : Bool → ℕ → ℕ
  pub float_less : ℕ → ℕ → Bool
  pub parse : ℕ → Option ℕ
  pub vip_type : ℕ → VipType

module _ (lib : Library) where
  -- The entry, once its protocol, scheduler and mode are found.
  unfoldable pub make_entry : PbEntry → ℕ → LbScheduler → LbMode → VserverEntry
  make_entry ve proto s m = record {
    port = u16 ve.port;
    proto = proto;
    mode = m;
    scheduler = s;
    persistence = ve.persistence;
    one_packet = ve.one_packet;
    high_watermark =
        if lib.float_less ve.high_watermark ve.low_watermark
        then ve.low_watermark
        else ve.high_watermark;
    low_watermark = ve.low_watermark;
    lower_threshold = ve.lthreshold;
    upper_threshold = ve.uthreshold;
    healthchecks =
        add_healthchecks []
          (protos_to_healthchecks lib.name lib.sort ve.healthchecks (u16 ve.port));
  }

  unfoldable pub translate_modes : PbEntry → ℕ → Translated
  unfolding make_entry
  translate_modes ve proto = elim (lb_scheduler ve.scheduler) [
    | none ↦ warned unsupported_scheduler
    | some s ↦ elim (lb_mode ve.mode) [
      | none ↦ warned unsupported_mode
      | some m ↦ entry (make_entry ve proto s m)
    ]
  ]

  unfoldable pub translate_entry : PbEntry → Translated
  unfolding translate_modes
  translate_entry ve = elim (ve.protocol) [
    | other_protocol ↦ warned unsupported_protocol
    | pb_tcp ↦ translate_modes ve 6
    | pb_udp ↦ translate_modes ve 17
  ]

  abbrev pub key_of : VserverEntry → ℕ
  key_of e = lib.entry_key e.port e.proto

  -- The loop over the entries, with `AddVserverEntry`.
  unfoldable pub add_entries :
      List PbEntry → List (ℕ × VserverEntry) → List Warning → List (ℕ × VserverEntry) × List Warning
  unfolding translate_entry
  add_entries [] entries warnings = (entries, warnings)
  add_entries (ve ∷ ves) entries warnings = elim (translate_entry ve) [
    | warned w ↦ add_entries ves entries (warnings ++ w ∷ [])
    | entry e ↦
        add_entries ves
          (if is_some (lookup (key_of e) entries) then entries else entries ++ (key_of e, e) ∷ [])
          warnings
  ]

  abbrev pub has_backend : ℕ → List Backend → Bool
  has_backend h [] = false
  has_backend h (b ∷ bs) = if b.hostname == h then true else has_backend h bs

  unfoldable pub new_backend : PbBackend → Backend
  new_backend p = record {
    hostname = p.host.fqdn;
    ipv4_addr = lib.parse p.host.ipv4;
    ipv6_addr = lib.parse p.host.ipv6;
    enabled = serves p.host.status;
    in_service = not (is_proposed p.host.status) && not (is_building p.host.status);
    weight = u32 p.weight;
  }

  -- The loop over the backends, with `AddBackend`.
  unfoldable pub add_backends : List PbBackend → List Backend → List Backend
  unfolding new_backend
  add_backends [] backends = backends
  add_backends (p ∷ ps) backends =
      add_backends ps
        (if has_backend p.host.fqdn backends then backends else backends ++ new_backend p ∷ [])

  abbrev pub has_grant : ℕ → List AccessGrant → Bool
  has_grant k [] = false
  has_grant k (g ∷ gs) = if g.key == k then true else has_grant k gs

  -- The loop over the grants, with `AddAccessGrant`.
  unfoldable pub add_grants : List PbGrant → List AccessGrant → List AccessGrant
  add_grants [] grants = grants
  add_grants (p ∷ ps) grants =
      let key = lib.grant_key p.is_group p.grantee in
      add_grants ps (
        if has_grant key grants
        then grants
        else grants ++ record { grantee = p.grantee; is_group = p.is_group; key = key } ∷ [])

  -- `NewVIP`
  abbrev pub new_vip : ℕ → Vip
  new_vip ip = record { ip = ip; type = lib.vip_type ip }

  -- The loop over the two addresses, with `AddVIP`.
  unfoldable pub make_vips : Option ℕ → Option ℕ → List Vip
  make_vips none none = []
  make_vips none (some ip6) = new_vip ip6 ∷ []
  make_vips (some ip4) none = new_vip ip4 ∷ []
  make_vips (some ip4) (some ip6) =
      if ip4 == ip6 then new_vip ip4 ∷ [] else new_vip ip4 ∷ (new_vip ip6 ∷ [])

  unfoldable pub make_vserver : PbVserver → Vserver
  unfolding add_entries add_backends add_grants make_vips
  make_vserver vs =
      let (entries, warnings) = add_entries vs.entries [] [] in
      record {
        config = record {
          name = vs.name;
          ipv4_addr = lib.parse vs.entry_address.ipv4;
          ipv6_addr = lib.parse vs.entry_address.ipv6;
          entries = entries;
          backends = add_backends vs.backends [];
          healthchecks =
              add_healthchecks [] (protos_to_healthchecks lib.name lib.sort vs.healthchecks 0);
          vips = make_vips (lib.parse vs.entry_address.ipv4) (lib.parse vs.entry_address.ipv6);
          enabled = serves vs.entry_address.status;
          use_fwm = vs.use_fwm;
        };
        access_grants = add_grants vs.access_grants [];
        warnings = warnings;
      }

  -- `addVservers`, with `AddVserver`.
  unfoldable pub add_vservers : List PbVserver → List (ℕ × Vserver) → List (ℕ × Vserver)
  unfolding make_vserver
  add_vservers [] vservers = vservers
  add_vservers (vs ∷ rest) vservers = add_vservers rest (
      if is_some (lookup vs.name vservers)
      then vservers
      else vservers ++ (vs.name, make_vserver vs) ∷ [])
