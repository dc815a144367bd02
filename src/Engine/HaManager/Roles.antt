-- ===== src/Engine/HaManager/Roles.antt =====
-- The role that an engine plays in each HA state.
use seesaw.Base.{ℕ, ◌≡◌, Bool, true, false, List, [], ◌∷◌, arith, if◌then◌else◌}
use seesaw.Ha.Node.Defs.{HaState, unknown, backup, disabled, leader, same_state, is_leader}
use seesaw.Engine.HaManager.Defs.{
  Status, Signal, start, quit, SyncClient, HaManager, new_ha_manager, enable_sync, disable_sync,
  become_master, become_backup, change_role, set_state, set_status, enable, disable, failover,
  request_failover, timer_fires, Event, state_received, status_received, ha_enabled, ha_disabled,
  timer_polled, failover_asked, failover_polled, handle, run,
}

-- The sync client was started exactly once more than it was told to quit while it is enabled, and as
-- often otherwise, in turns.
abbrev pub AreInTurns : Bool → List Signal → Type 0
AreInTurns false [] = Unit
AreInTurns true (start ∷ signals) = AreInTurns false signals
AreInTurns false (quit ∷ signals) = AreInTurns true signals
AreInTurns _ _ = ⊥

pub record IsInRole (h : HaManager) : Type 0 where
  pub interface : h.lb_up ≡ is_leader h.status.state
  pub master_alone : h.status.state ≡ leader → h.sync_client.enabled ≡ false
  pub backup_syncs : h.status.state ≡ backup → h.sync_client.enabled ≡ h.sync_client.peer_configured
  pub peerless : h.sync_client.peer_configured ≡ false → h.sync_client.enabled ≡ false
  pub signalled : AreInTurns h.sync_client.enabled h.sync_client.signals

abbrev client : Bool → Bool → List Signal → SyncClient
client p e signals = record { peer_configured = p; enabled = e; signals = signals }

enable_sync-AreInTurns :
    (p e : Bool) (signals : List Signal)
    → AreInTurns e signals
    → AreInTurns
        (enable_sync (client p e signals)).enabled
        (enable_sync (client p e signals)).signals
unfolding enable_sync
enable_sync-AreInTurns false e signals h = h
enable_sync-AreInTurns true true signals h = h
enable_sync-AreInTurns true false signals h = h

disable_sync-AreInTurns :
    (p e : Bool) (signals : List Signal)
    → AreInTurns e signals
    → AreInTurns
        (disable_sync (client p e signals)).enabled
        (disable_sync (client p e signals)).signals
unfolding disable_sync
disable_sync-AreInTurns false e signals h = h
disable_sync-AreInTurns true true signals h = h
disable_sync-AreInTurns true false signals h = h

module _ (h : HaManager) (v : IsInRole h) where
  enabled-AreInTurns :
      AreInTurns (enable_sync h.sync_client).enabled (enable_sync h.sync_client).signals
  enabled-AreInTurns =
      enable_sync-AreInTurns h.sync_client.peer_configured h.sync_client.enabled
        h.sync_client.signals v.signalled

  disabled-AreInTurns :
      AreInTurns (disable_sync h.sync_client).enabled (disable_sync h.sync_client).signals
  disabled-AreInTurns =
      disable_sync-AreInTurns h.sync_client.peer_configured h.sync_client.enabled
        h.sync_client.signals v.signalled

  set_state-signalled :
      (s : HaState) (now : ℕ)
      → AreInTurns (set_state h s now).sync_client.enabled (set_state h s now).sync_client.signals
  unfolding set_state change_role become_master become_backup
  set_state-signalled s now = ground (arith, v.signalled, enabled-AreInTurns, disabled-AreInTurns)

  set_state-held :
      (s : HaState) (now : ℕ)
      → let h' = set_state h s now in
        (h'.lb_up ≡ is_leader h'.status.state)
        × (h'.status.state ≡ leader → h'.sync_client.enabled ≡ false)
        × (h'.status.state ≡ backup → h'.sync_client.enabled ≡ h'.sync_client.peer_configured)
        × (h'.sync_client.peer_configured ≡ false → h'.sync_client.enabled ≡ false)
  unfolding set_state change_role become_master become_backup enable_sync disable_sync
  set_state-held s now = ground (arith, v.interface, v.master_alone, v.backup_syncs, v.peerless)

  set_state-IsInRole : (s : HaState) (now : ℕ) → IsInRole (set_state h s now)
  set_state-IsInRole s now =
      let (interface, master_alone, backup_syncs, peerless) = set_state-held s now in
      record {
        interface = interface;
        master_alone = master_alone;
        backup_syncs = backup_syncs;
        peerless = peerless;
        signalled = set_state-signalled s now;
      }

set_status-IsInRole :
    (h : HaManager) (st : Status) (now : ℕ) → IsInRole h → IsInRole (set_status h st now)
unfolding set_status
set_status-IsInRole h st now v =
    let w = set_state-IsInRole h v st.state now in
    record {
      interface = w.interface;
      master_alone = w.master_alone;
      backup_syncs = w.backup_syncs;
      peerless = w.peerless;
      signalled = w.signalled;
    }

-- What holds of both branches holds of the test.
either : (b : Bool) (x y : HaManager) → IsInRole x → IsInRole y → IsInRole (if b then x else y)
either true x y p q = p
either false x y p q = q

with_pending :
    (h : HaManager) (b : Bool) → IsInRole h → IsInRole (record h { failover_pending = b })
with_pending h b v = record {
  interface = v.interface;
  master_alone = v.master_alone;
  backup_syncs = v.backup_syncs;
  peerless = v.peerless;
  signalled = v.signalled;
}

either_first :
    {A : Type 0} (b : Bool) (x y : HaManager × A)
    → IsInRole x.0
    → IsInRole y.0
    → IsInRole (if b then x else y).0
either_first true x y p q = p
either_first false x y p q = q

request_failover-IsInRole :
    (h : HaManager) (peer : Bool) → IsInRole h → IsInRole (request_failover h peer).0
unfolding request_failover
request_failover-IsInRole h peer v =
    either_first (same_state h.status.state leader) _ _
      (either_first h.failover_pending _ _ v (with_pending h true v)) (either_first peer _ _ v v)

handle-IsInRole : (h : HaManager) (e : Event) → IsInRole h → IsInRole (handle h e)
unfolding handle enable disable failover
handle-IsInRole h (state_received s now) v = set_state-IsInRole h v s now
handle-IsInRole h (status_received st now) v = set_status-IsInRole h st now v
handle-IsInRole h (ha_enabled now) v = either _ _ h (set_state-IsInRole h v unknown now) v
handle-IsInRole h (ha_disabled now) v = set_state-IsInRole h v disabled now
handle-IsInRole h (timer_polled now) v =
    either (timer_fires h now) _ h (set_state-IsInRole h v unknown now) v
handle-IsInRole h (failover_asked peer) v = request_failover-IsInRole h peer v
handle-IsInRole h failover_polled v = with_pending h false v

run-IsInRole : (h : HaManager) (es : List Event) → IsInRole h → IsInRole (run h es)
unfolding run
run-IsInRole h [] v = v
run-IsInRole h (e ∷ es) v = run-IsInRole (handle h e) es (handle-IsInRole h e v)

-- Whatever an HA manager that starts with the LB interface down receives: the interface is up exactly
-- while its state is LEADER; the sync client is off then, on in BACKUP if a peer is configured, and
-- never on without one; and the client is told to start and to quit in turns, starting with a start,
-- and was last told what it is.
pub run-new_ha_manager :
    (peer : Bool) (timeout now : ℕ) (es : List Event)
    → IsInRole (run (new_ha_manager peer timeout now) es)
unfolding new_ha_manager
run-new_ha_manager peer timeout now es =
    run-IsInRole (new_ha_manager peer timeout now) es (ground arith)
