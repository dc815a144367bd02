-- ===== src/Engine/Vserver/Config/Equal.antt =====
-- ipvs/ipvs.go and engine/vserver.go: when two services or destinations are the same to IPVS.
use seesaw.Base.{Bool, true, false, ◌&&◌, ◌==◌}
use seesaw.Engine.Healthchecks.Keys.{check_key_eq, same_bool}
use seesaw.Engine.Vserver.Data.{
  LbMode, lb_none, dsr, nat, tun, LbScheduler, none_scheduler, rr, wrr, lc, wlc, sh, mh, Forward,
  unspecified, route, masq, tunnel, ServiceFlags, ServiceAddress, ip_zero, ip_of, IpvsService,
  IpvsDestination, Service,
}
use seesaw.Engine.Vserver.State.{same_af}

abbrev pub same_lb_mode : LbMode → LbMode → Bool
same_lb_mode lb_none lb_none = true
same_lb_mode dsr dsr = true
same_lb_mode nat nat = true
same_lb_mode tun tun = true
same_lb_mode _ _ = false

abbrev pub same_scheduler : LbScheduler → LbScheduler → Bool
same_scheduler none_scheduler none_scheduler = true
same_scheduler rr rr = true
same_scheduler wrr wrr = true
same_scheduler lc lc = true
same_scheduler wlc wlc = true
same_scheduler sh sh = true
same_scheduler mh mh = true
same_scheduler _ _ = false

abbrev pub same_forward : Forward → Forward → Bool
same_forward unspecified unspecified = true
same_forward route route = true
same_forward masq masq = true
same_forward tunnel tunnel = true
same_forward _ _ = false

abbrev pub same_address : ServiceAddress → ServiceAddress → Bool
same_address (ip_zero a) (ip_zero b) = same_af a b
same_address (ip_of a) (ip_of b) = a == b
same_address _ _ = false

abbrev pub same_flags : ServiceFlags → ServiceFlags → Bool
same_flags a b =
    same_bool a.persistent b.persistent
    && (same_bool a.one_packet b.one_packet
        && (same_bool a.sched_sh b.sched_sh && same_bool a.sched_mh b.sched_mh))

-- `ipvs.Service.Equal`
unfoldable pub same_ipvs_service : IpvsService → IpvsService → Bool
same_ipvs_service a b =
    same_address a.address b.address
    && (a.protocol == b.protocol
        && (a.port == b.port
            && (a.firewall_mark == b.firewall_mark
                && (same_scheduler a.scheduler b.scheduler
                    && (same_flags a.flags b.flags && a.timeout == b.timeout)))))

-- `service.ipvsEqual`
unfoldable pub service_ipvs_equal : Service → Service → Bool
unfolding same_ipvs_service
service_ipvs_equal s t =
    same_ipvs_service s.ipvs_svc t.ipvs_svc
    && (same_lb_mode s.ventry.mode t.ventry.mode
        && (s.ventry.lower_threshold == t.ventry.lower_threshold
            && s.ventry.upper_threshold == t.ventry.upper_threshold))

-- `destination.ipvsEqual`, by `ipvs.Destination.Equal`.
unfoldable pub dest_ipvs_equal : IpvsDestination → IpvsDestination → Bool
dest_ipvs_equal a b =
    a.address == b.address
    && (a.port == b.port
        && (a.weight == b.weight
            && (same_forward a.flags b.flags
                && (a.lower_threshold == b.lower_threshold
                    && a.upper_threshold == b.upper_threshold))))
