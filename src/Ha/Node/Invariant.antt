-- ===== src/Ha/Node/Invariant.antt =====
-- What holds of a node between two steps of its goroutines.
use seesaw.Base.{
  ℕ, ◌+◌, ◌≤◌, ◌≡◌, refl, ◌⊎◌, Bool, true, false, some, inl, inr, Option-cases, List, [], ◌∷◌,
  arith, length, length-append, u64,
}
use seesaw.Ha.Node.Defs.{
  HaState, backup, leader, shutdown, is_leader, Advertisement, NodeConfig, Node, recv_channel_size,
  new_node, status, become_master, become_backup, become_shutdown, do_master_tasks, do_backup_tasks,
  Wake, advert_queued, timed_out, running, after_backup_tasks, after_master_tasks, run_state,
  run_once, sender_tick, receive_advertisement,
}

-- The last state that the engine was told, and `backup` before any.
abbrev pub last_told : List HaState → HaState
last_told [] = backup
last_told (s ∷ _) = s

abbrev pub is_role : HaState → Bool
is_role backup = true
is_role leader = true
is_role shutdown = true
is_role _ = false

pub record Inv (n : Node) : Type 0 where
  pub role : is_role n.ha_status.state ≡ true
  pub sending : n.sender ≡ is_leader n.ha_status.state
  pub reported : last_told n.told ≡ n.ha_status.state
  pub counted : n.ha_status.transitions ≡ u64 (length n.told + 1)
  pub queued : length n.recv_channel ≤ recv_channel_size

-- A step of one of the goroutines of a node: `Run`, the sender, the receiver, or `status`.
pub data Step (n m : Node) : Type 0 where
  ran : (start now : ℕ) (w : Wake) → run_once n start now w ≡ running m → Step n m
  ticked : (sends : Bool) → n.sender ≡ true → m ≡ (sender_tick n sends).0 → Step n m
  received : (a : Advertisement) → m ≡ (receive_advertisement n a).0 → Step n m
  reported_status : m ≡ (status n).0 → Step n m

pub data Reach (n : Node) : Node → Type 0 where
  here : Reach n n
  next : {m o : Node} → Reach n m → Step m o → Reach n o

pub new_node-Inv : (cfg : NodeConfig) (now : ℕ) → Inv (new_node cfg now)
unfolding new_node
new_node-Inv cfg now = ground arith

become_master-Inv :
    (n : Node) (now : ℕ) → Inv n → n.ha_status.state ≡ backup → Inv (become_master n now)
unfolding become_master
become_master-Inv n now v e = ground arith

become_backup-Inv :
    (n : Node) (now : ℕ) → Inv n → n.ha_status.state ≡ leader → Inv (become_backup n now)
unfolding become_backup
become_backup-Inv n now v e = ground arith

become_shutdown-Inv :
    (n : Node) (now : ℕ)
    → Inv n
    → (n.ha_status.state ≡ leader) ⊎ (n.ha_status.state ≡ backup)
    → Inv (become_shutdown n now)
unfolding become_shutdown
become_shutdown-Inv n now v e = ground arith

-- Reading from the queue and the timing fields leave the invariant and the state alone.
do_backup_tasks-keeps :
    (n : Node) (start now : ℕ) (w : Wake) (m : Node) (s : HaState)
    → Inv n
    → do_backup_tasks n start now w ≡ some (m, s)
    → Inv m × (m.ha_status ≡ n.ha_status)
unfolding do_backup_tasks
do_backup_tasks-keeps n start now advert_queued m s v e = ground arith
do_backup_tasks-keeps n start now timed_out m s v e = ground arith
do_backup_tasks-keeps n start now _ m s v e = ground arith

do_master_tasks-keeps :
    (n : Node) (now : ℕ) (w : Wake) (m : Node) (s : HaState)
    → Inv n
    → do_master_tasks n now w ≡ some (m, s)
    → Inv m × (m.ha_status ≡ n.ha_status)
unfolding do_master_tasks
do_master_tasks-keeps n now advert_queued m s v e = ground arith
do_master_tasks-keeps n now _ m s v e = ground arith

after_backup_tasks-Inv :
    (now : ℕ) (n : Node) (s : HaState) {m : Node}
    → Inv n
    → n.ha_status.state ≡ backup
    → after_backup_tasks now (some (n, s)) ≡ running m
    → Inv m
unfolding after_backup_tasks
after_backup_tasks-Inv now n s v b e = ground arith

after_master_tasks-Inv :
    (now : ℕ) (n : Node) (s : HaState) {m : Node}
    → Inv n
    → n.ha_status.state ≡ leader
    → after_master_tasks now (some (n, s)) ≡ running m
    → Inv m
unfolding after_master_tasks
after_master_tasks-Inv now n s v b e = ground arith

backup-Inv :
    (n m : Node) (start now : ℕ) (w : Wake)
    → Inv n
    → n.ha_status.state ≡ backup
    → after_backup_tasks now (do_backup_tasks n start now w) ≡ running m
    → Inv m
backup-Inv n m start now w v b e = elim (Option-cases (do_backup_tasks n start now w)) [
  | inl stuck ↦ absurd (unfold after_backup_tasks in ground arith)
  | inr ((o, s), did) ↦
      let (vo, same) = do_backup_tasks-keeps n start now w o s v did in
      after_backup_tasks-Inv now o s vo (cc) (rw did at e)
]

leader-Inv :
    (n m : Node) (now : ℕ) (w : Wake)
    → Inv n
    → n.ha_status.state ≡ leader
    → after_master_tasks now (do_master_tasks n now w) ≡ running m
    → Inv m
leader-Inv n m now w v b e = elim (Option-cases (do_master_tasks n now w)) [
  | inl stuck ↦ absurd (unfold after_master_tasks in ground arith)
  | inr ((o, s), did) ↦
      let (vo, same) = do_master_tasks-keeps n now w o s v did in
      after_master_tasks-Inv now o s vo (cc) (rw did at e)
]

run_state-Inv :
    (s : HaState) (n m : Node) (start now : ℕ) (w : Wake)
    → Inv n
    → n.ha_status.state ≡ s
    → run_state s n start now w ≡ running m
    → Inv m
unfolding run_state
run_state-Inv backup n m start now w v b e = backup-Inv n m start now w v b e
run_state-Inv leader n m start now w v b e = leader-Inv n m now w v b e
run_state-Inv _ n m start now w v b e = cc

run_once-Inv :
    (n m : Node) (start now : ℕ) (w : Wake) → Inv n → run_once n start now w ≡ running m → Inv m
unfolding run_once
run_once-Inv n m start now w v e = run_state-Inv n.ha_status.state n m start now w v refl e

sender_tick-Inv : (n : Node) (sends : Bool) → Inv n → Inv (sender_tick n sends).0
unfolding sender_tick
sender_tick-Inv n sends v = ground arith

receive_advertisement-Inv :
    (n : Node) (a : Advertisement) → Inv n → Inv (receive_advertisement n a).0
unfolding receive_advertisement
receive_advertisement-Inv n a v = ground (arith, length-append n.recv_channel (a ∷ []))

status-Inv : (n : Node) → Inv n → Inv (status n).0
unfolding status
status-Inv n v = ground arith

Step-Inv : (n m : Node) → Step n m → Inv n → Inv m
Step-Inv n m (ran start now w e) v = run_once-Inv n m start now w v e
Step-Inv n m (ticked sends _ e) v = rw e (sender_tick-Inv n sends v)
Step-Inv n m (received a e) v = rw e (receive_advertisement-Inv n a v)
Step-Inv n m (reported_status e) v = rw e (status-Inv n v)

Reach-Inv : {n m : Node} → Inv n → Reach n m → Inv m
Reach-Inv v here = v
Reach-Inv v (next {m} {o} r st) = Step-Inv m o st (Reach-Inv v r)

-- A node built by `NewNode` keeps, after any interleaving of its main loop, its sender, its receiver
-- and status reports: its state is BACKUP, LEADER or SHUTDOWN; the sender goroutine runs exactly
-- while it is LEADER; the engine was last told its state; the transition counter is one more than
-- the number of states that the engine was told (mod 2^64); and the receive queue fits its channel.
pub Reach-new_node-Inv :
    (cfg : NodeConfig) (now : ℕ) {n : Node} → Reach (new_node cfg now) n → Inv n
Reach-new_node-Inv cfg now r = Reach-Inv (new_node-Inv cfg now) r
