-- ===== src/Engine/HaManager/Requests.antt =====
-- Disabled HA managers, and failover requests.
use seesaw.Base.{ℕ, ◌+◌, ◌≡◌, refl, Bool, true, false, List, [], ◌∷◌, All, arith, if◌then◌else◌}
use seesaw.Ha.Node.Defs.{HaState, unknown, disabled, same_state}
use seesaw.Engine.HaManager.Defs.{
  HaManager, become_master, become_backup, change_role, set_state, set_status, enable, disable,
  failover, FailoverReply, accepted, request_failover, timer_fires, Event, state_received,
  status_received, ha_enabled, ha_disabled, timer_polled, failover_asked, failover_polled, handle,
  run,
}

-- An event that may end the DISABLED state.
abbrev pub is_enabling : Event → Bool
is_enabling (state_received s now) = same_state s unknown
is_enabling (status_received st now) = same_state st.state unknown
is_enabling (ha_enabled now) = true
is_enabling _ = false

handle-disabled :
    (h : HaManager) (e : Event)
    → h.status.state ≡ disabled
    → is_enabling e ≡ false
    → (handle h e).status.state ≡ disabled
unfolding handle set_state set_status enable disable timer_fires request_failover failover
    change_role
handle-disabled h (state_received s now) d k = ground arith
handle-disabled h (status_received st now) d k = ground arith
handle-disabled h (ha_enabled now) d k = cc
handle-disabled h (ha_disabled now) d k = ground arith
handle-disabled h (timer_polled now) d k = ground arith
handle-disabled h (failover_asked peer) d k = ground arith
handle-disabled h failover_polled d k = ground arith

-- A disabled manager stays so, its timeouts and the reports of the HA component included, until it is
-- enabled or told that its state is UNKNOWN.
pub run-disabled :
    (h : HaManager) (es : List Event)
    → h.status.state ≡ disabled
    → All (λ e. is_enabling e ≡ false) es
    → (run h es).status.state ≡ disabled
unfolding run
run-disabled h [] d k = d
run-disabled h (e ∷ es) d k = run-disabled (handle h e) es (handle-disabled h e d k.0) k.1

-- Whether an event is a failover request that is accepted, or a poll that reports one.
abbrev pub is_accepted : FailoverReply → Bool
is_accepted accepted = true
is_accepted _ = false

abbrev pub accepts : HaManager → Event → Bool
accepts h (failover_asked peer) = is_accepted (request_failover h peer).1
accepts h _ = false

abbrev pub reports : HaManager → Event → Bool
reports h failover_polled = (failover h).1
reports h _ = false

abbrev pub one_if : Bool → ℕ
one_if b = if b then 1 else 0

-- How many events of a history do.
abbrev pub times : (HaManager → Event → Bool) → HaManager → List Event → ℕ
times does h [] = 0
times does h (e ∷ es) = one_if (does h e) + times does (handle h e) es

set_state-pending :
    (h : HaManager) (s : HaState) (now : ℕ)
    → (set_state h s now).failover_pending ≡ h.failover_pending
unfolding set_state change_role become_master become_backup
set_state-pending h s now = ground arith

handle-pending :
    (h : HaManager) (e : Event)
    → one_if (reports h e) + one_if (handle h e).failover_pending
      ≡ one_if (accepts h e) + one_if h.failover_pending
unfolding handle set_status enable disable request_failover failover
handle-pending h (state_received s now) = ground (arith, set_state-pending h s now)
handle-pending h (status_received st now) = ground (arith, set_state-pending h st.state now)
handle-pending h (ha_enabled now) = ground (arith, set_state-pending h unknown now)
handle-pending h (ha_disabled now) = ground (arith, set_state-pending h disabled now)
handle-pending h (timer_polled now) = ground (arith, set_state-pending h unknown now)
handle-pending h (failover_asked peer) = ground arith
handle-pending h failover_polled = ground arith

-- Each accepted failover request is reported to the HA component at most once, and none is lost: those
-- reported and the one that is pending at the end are as many as those accepted and the one that was
-- pending at the start.
pub failovers_reported_once :
    (h : HaManager) (es : List Event)
    → times reports h es + one_if (run h es).failover_pending
      ≡ times accepts h es + one_if h.failover_pending
unfolding run
failovers_reported_once h [] = refl
failovers_reported_once h (e ∷ es) =
    omega (arith, handle-pending h e, failovers_reported_once (handle h e) es)
