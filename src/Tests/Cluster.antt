-- ===== src/Tests/Cluster.antt =====
-- engine/: marks, sync sessions, HA states and access grants.
use seesaw.Engine.HaManager.Requests.{times, reports, accepts, one_if, failovers_reported_once}
use seesaw.Base.{◌≡◌, ◌+◌, refl, true, false, List, [], ◌∷◌, ◌++◌, arith, is_some}
use seesaw.Ha.Node.Defs.{backup, leader}
use seesaw.Engine.Marks.Defs.{MarkAllocator, put, get, new_mark_allocator, put_range}
use seesaw.Engine.Marks.Allocation.{
  allocated, returned, Reach, here, next, occurrences, Reach-new_mark_allocator,
}
use seesaw.Engine.Sync.Defs.{
  SyncNote, config_update, SyncSession, new_sync_server, fresh_session, register, tick, poll,
  poll_session, add_note, new_session, notify, deregister, beat, poll_locked, poll_notes, try_send,
  mark_desync, poll_loop,
}
use seesaw.Engine.Sync.Delivery.{
  Log, start, note_offered, poll_began, notes_polled, replay, replay-start_complete, handle,
}
use seesaw.Engine.Sync.Sessions.{Request, registered, notified, serve_all, serve}
use seesaw.Engine.HaManager.Defs
use seesaw.Engine.HaManager.Roles.{IsInRole, run-new_ha_manager}
use seesaw.Engine.SyncClient.Defs.{Connection}
use seesaw.Engine.Access.Defs.{AccessGrant, Cluster, has_access, new_vserver_user_access}
use seesaw.Engine.Access.Grants.{has_access-new_vserver_user_access}

program : Unit {0}
unfolding put get new_mark_allocator put_range new_sync_server register tick poll poll_session
    add_note new_session notify deregister beat poll_locked poll_notes try_send mark_desync
    poll_loop replay handle serve_all serve Defs.new_ha_manager Defs.run Defs.handle Defs.set_state
    Defs.set_status Defs.disable Defs.enable Defs.failover Defs.request_failover Defs.change_role
    Defs.become_master Defs.become_backup Defs.timer_fires
program = tt

abbrev second_free : MarkAllocator
second_free = record { marks = 11 ∷ 12 ∷ 10 ∷ [] }

allocations : Reach ([], new_mark_allocator 10 3) ([], second_free)
unfolding program
allocations = next (next here (allocated 10 refl)) (returned [] [] 10)

Reach-new_mark_allocator_example : occurrences 10 [] + occurrences 10 second_free.marks ≡ 1
Reach-new_mark_allocator_example =
    Reach-new_mark_allocator 10 3 10 {held = []} {ma = second_free} (omega arith) allocations

abbrev reload : SyncNote
reload = record { type = config_update; time = 3; payload = 1 }

abbrev after_polls : Log
unfolding program
after_polls = replay (start 0 9 1) (
    poll_began 2
    ∷ note_offered reload
    ∷ note_offered reload
    ∷ notes_polled
    ∷ note_offered reload
    ∷ [])

replay-start_complete_example :
    (reload ∷ reload ∷ []) ++ reload ∷ [] ≡ reload ∷ reload ∷ reload ∷ []
unfolding program
replay-start_complete_example =
    replay-start_complete 0 9 1
      (poll_began 2
        ∷ note_offered reload
        ∷ note_offered reload
        ∷ notes_polled
        ∷ note_offered reload
        ∷ [])
      refl refl

abbrev requests : List Request
requests = registered true 5 100 ∷ notified reload ∷ registered true 6 200 ∷ []

abbrev polled_once : SyncSession
unfolding program
polled_once = (poll (fresh_session 1 6 200) 400).0

abbrev peer_events : List Defs.Event
peer_events =
    Defs.state_received backup 10
    ∷ Defs.state_received leader 20
    ∷ Defs.failover_asked false
    ∷ Defs.failover_polled
    ∷ Defs.state_received backup 30
    ∷ []

run-new_ha_manager_example : IsInRole (Defs.run (Defs.new_ha_manager true 100 0) peer_events)
run-new_ha_manager_example = run-new_ha_manager true 100 0 peer_events

abbrev switched_off : Defs.HaManager
unfolding program
switched_off = Defs.run (Defs.new_ha_manager true 100 0) (Defs.ha_disabled 5 ∷ [])

abbrev grants : List AccessGrant
grants =
    record { grantee = 1; is_group = false; key = 50 }
    ∷ record { grantee = 8; is_group = true; key = 51 }
    ∷ []

abbrev cluster : Cluster
cluster = record {
  vservers = record { name = 3; access_grants = grants } ∷ [];
  access_groups = (8, 2 ∷ 4 ∷ []) ∷ [];
}

has_access-new_vserver_user_access_example :
    is_some (has_access (new_vserver_user_access cluster) 3 4) ≡ true
has_access-new_vserver_user_access_example = has_access-new_vserver_user_access cluster 3 4

abbrev held_once : Connection
held_once = record { connected = true; refs = 1; dials = 2; closes = 1 }

failovers_reported_once_example :
    times reports switched_off peer_events
      + one_if (Defs.run switched_off peer_events).failover_pending
    ≡ times accepts switched_off peer_events + one_if switched_off.failover_pending
failovers_reported_once_example = failovers_reported_once switched_off peer_events
