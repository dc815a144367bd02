-- ===== src/Ha/Node/Election.antt =====
-- Which of two peers stays master, and when a backup takes over.
use seesaw.Base.{
  ℕ, ◌<◌, ◌≡◌, ◌≢◌, refl, ◌⊎◌, ◌↔◌, true, false, not, ◌&&◌, ◌||◌, some, List, [], ◌∷◌, arith, ltb,
  ◌==◌, if◌then◌else◌,
}
use seesaw.Ha.Node.Defs.{
  HaState, backup, leader, shutdown, Advertisement, Node, new_advertisement, bytes_gt,
  remote_is_higher, master_handle_advertisement, backup_handle_advertisement, become_shutdown,
}

-- `bytes.Compare` is a strict total order.
bytes_gt_asymm : (a b : List ℕ) → bytes_gt a b ≡ true → bytes_gt b a ≡ false
unfolding bytes_gt
bytes_gt_asymm [] b h = cc
bytes_gt_asymm (x ∷ a) [] h = refl
bytes_gt_asymm (x ∷ a) (y ∷ b) h = ground (arith, bytes_gt_asymm a b)

bytes_gt_antisymm : (a b : List ℕ) → bytes_gt a b ≡ false → bytes_gt b a ≡ false → a ≡ b
unfolding bytes_gt
bytes_gt_antisymm [] [] h k = refl
bytes_gt_antisymm [] (y ∷ b) h k = cc
bytes_gt_antisymm (x ∷ a) [] h k = cc
bytes_gt_antisymm (x ∷ a) (y ∷ b) h k = ground (arith, bytes_gt_antisymm a b)

bytes_gt_flip : (a b : List ℕ) → a ≢ b → bytes_gt b a ≡ not (bytes_gt a b)
bytes_gt_flip a b ne = ground (arith, bytes_gt_asymm a b, bytes_gt_asymm b a, bytes_gt_antisymm a b)

-- The state that `doMasterTasks` asks for when the next advertisement in the queue is `advert`.
abbrev pub master_verdict : Node → Advertisement → ℕ → HaState
master_verdict n advert now = (master_handle_advertisement n advert now).1

abbrev pub backup_verdict : Node → Advertisement → ℕ → HaState
backup_verdict n advert now = (backup_handle_advertisement n advert now).1

-- Two nodes that advertise to each other by unicast addresses.
pub record Peers (a b : Node) (x y : List ℕ) : Type 0 where
  pub a_local : a.config.local_addr ≡ some x
  pub a_remote : a.config.remote_addr ≡ some y
  pub b_local : b.config.local_addr ≡ some y
  pub b_remote : b.config.remote_addr ≡ some x
  pub distinct : x ≢ y

-- The advertisements of two masters settle who stays: when each handles the other's, exactly one
-- asks for BACKUP and the other stays LEADER, for any two peers with distinct addresses; it is the
-- one with the lower priority or, at equal priorities, with the lower address.
pub two_masters_settle :
    (a b : Node) (x y : List ℕ) (now then' : ℕ)
    → Peers a b x y
    → (master_verdict a (new_advertisement b) now ≡ (
        if ltb a.config.priority b.config.priority
          || a.config.priority == b.config.priority && bytes_gt y x
        then backup
        else leader))
      × (master_verdict b (new_advertisement a) then' ≡ (
          if ltb a.config.priority b.config.priority
            || a.config.priority == b.config.priority && bytes_gt y x
          then leader
          else backup))
unfolding master_handle_advertisement remote_is_higher new_advertisement
two_masters_settle a b x y now then' p = (ground arith, ground (arith, bytes_gt_flip x y))

-- If both nodes hold the multicast group as their remote address, and it is above both of their own
-- addresses, two masters of equal priority both step down.
pub multicast_masters_both_step_down :
    (a b : Node) (x y group : List ℕ) (now then' : ℕ)
    → a.config.local_addr ≡ some x
    → b.config.local_addr ≡ some y
    → a.config.remote_addr ≡ some group
    → b.config.remote_addr ≡ some group
    → bytes_gt group x ≡ true
    → bytes_gt group y ≡ true
    → a.config.priority ≡ b.config.priority
    → (master_verdict a (new_advertisement b) now ≡ backup)
      × (master_verdict b (new_advertisement a) then' ≡ backup)
unfolding master_handle_advertisement remote_is_higher new_advertisement
multicast_masters_both_step_down a b x y group now then' la lb ra rb gx gy e =
    (ground arith, ground arith)

-- A backup takes an advertisement as a reason to become master exactly when it carries priority 0,
-- or a priority below its own while the node may preempt.
pub backup_takes_over_iff :
    (n : Node) (advert : Advertisement) (now : ℕ)
    → (backup_verdict n advert now ≡ leader) ↔ (
        (advert.priority ≡ 0) ⊎ ((n.config.preempt ≡ true) × (advert.priority < n.config.priority)))
unfolding backup_handle_advertisement
backup_takes_over_iff n advert now = (λ h. ground arith, λ h. ground arith)

-- A master that shuts down hands over: its last advertisement, already counted in what it sent, makes
-- a backup that receives it ask to become master, whatever the priorities.
pub shutdown_hands_over :
    (n peer : Node) (now then' : ℕ)
    → n.ha_status.state ≡ leader
    → ((become_shutdown n now).ha_status.state ≡ shutdown)
      × ((become_shutdown n now).sender ≡ false)
      × ((a : Advertisement) × ((become_shutdown n now).sent ≡ a ∷ n.sent)
          × (a.vrid ≡ n.config.vrid)
          × (backup_verdict peer a then' ≡ leader))
unfolding become_shutdown backup_handle_advertisement
shutdown_hands_over n peer now then' h = (
  ground arith,
  ground arith,
  (record (new_advertisement n) { priority = 0 }, ground arith, ground arith, ground arith),
)
