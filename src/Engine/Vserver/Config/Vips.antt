-- ===== src/Engine/Vserver/Config/Vips.antt =====
-- engine/vserver.go: the unicast and dedicated addresses of a vserver on the load balancing interface.
use seesaw.Base.{
  ℕ, Bool, true, false, not, ◌||◌, List, [], ◌∷◌, ◌++◌, ◌==◌, if◌then◌else◌, insert, remove,
}
use seesaw.Engine.Vserver.Data.{Service, add_vip, delete_vip, add_vserver, delete_vserver}
use seesaw.Engine.Vserver.Config.Data.{Vip, anycast_vip, same_vip, same_vip_type, Configured}

abbrev pub has_vip : Vip → List Vip → Bool
has_vip vip [] = false
has_vip vip (w ∷ ws) = same_vip w vip || has_vip vip ws

abbrev pub remove_vip : Vip → List Vip → List Vip
remove_vip vip [] = []
remove_vip vip (w ∷ ws) = let rest = remove_vip vip ws in if same_vip w vip then rest else w ∷ rest

-- One round of `configureVIPs`.
unfoldable pub configure_vip : Configured → Vip → Configured
configure_vip c vip =
    if has_vip vip c.vips || same_vip_type vip.type anycast_vip then c else record c {
      vserver = record c.vserver { lb_vservers = insert vip.ip true c.vserver.lb_vservers };
      vips = c.vips ++ vip ∷ [];
      ops = c.ops ++ add_vserver vip.ip ∷ add_vip vip.ip ∷ [];
    }

-- `configureVIPs`
unfoldable pub configure_vips : Configured → List Vip → Configured
unfolding configure_vip
configure_vips c [] = c
configure_vips c (vip ∷ vips) = configure_vips (configure_vip c vip) vips

-- `unconfigureVIP`
unfoldable pub unconfigure_vip : Configured → Vip → Configured
unconfigure_vip c vip = if not (has_vip vip c.vips) then c else record c {
  vserver = record c.vserver { lb_vservers = remove vip.ip c.vserver.lb_vservers };
  vips = remove_vip vip c.vips;
  ops = c.ops ++ delete_vip vip.ip ∷ delete_vserver vip.ip ∷ [];
}

-- The loop of `unconfigureVIPs`.
unfoldable pub unconfigure_list : Configured → List Vip → Configured
unfolding unconfigure_vip
unconfigure_list c [] = c
unconfigure_list c (vip ∷ vips) = unconfigure_list (unconfigure_vip c vip) vips

unfoldable pub unconfigure_vips : Configured → Configured
unfolding unconfigure_list
unconfigure_vips c = unconfigure_list c c.vips

abbrev pub needs_vip : List Service → ℕ → Bool
needs_vip [] ip = false
needs_vip (s ∷ ss) ip = s.vip == ip || needs_vip ss ip

-- The loop of `configUpdate` over the addresses that no service has any more.
unfoldable pub unconfigure_unneeded : Configured → List Vip → Configured
unfolding unconfigure_vip
unconfigure_unneeded c [] = c
unconfigure_unneeded c (vip ∷ vips) =
    unconfigure_unneeded (if needs_vip c.vserver.services vip.ip then c else unconfigure_vip c vip)
      vips
