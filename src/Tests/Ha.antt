-- ===== src/Tests/Ha.antt =====
-- ha/: two nodes, their advertisements and packets.
use seesaw.Base.{ℕ, ◌≡◌, refl, true, false, some, List, [], ◌∷◌, arith}
use seesaw.Ha.Node.Defs.{
  backup, leader, Advertisement, NodeConfig, Node, new_node, new_advertisement, set_state,
  become_master, sender_tick, receive_advertisement, run_once, timed_out,
  reset_master_down_interval, down_interval, backup_handle_advertisement, do_backup_tasks,
  run_state, after_backup_tasks, tell, queue_advertisement, bytes_gt, remote_is_higher,
}
use seesaw.Ha.Node.Invariant.{Inv, ran, ticked, Reach, here, next, Reach-new_node-Inv}
use seesaw.Ha.Node.Election.{master_verdict, two_masters_settle}
use seesaw.Ha.Wire.Defs.{
  ip4, Conn, encode, send, receive, decode, validate, checksum, pseudo_header, ip_checksum,
  sum_words, fold, same_address,
}
use seesaw.Ha.Wire.RoundTrip.{IsAdvertisement, packet_of, receive-send}

program : Unit {0}
unfolding new_node set_state reset_master_down_interval down_interval new_advertisement
    become_master tell sender_tick receive_advertisement run_once run_state after_backup_tasks
    backup_handle_advertisement do_backup_tasks queue_advertisement bytes_gt remote_is_higher encode
    send receive decode validate checksum pseudo_header ip_checksum sum_words fold same_address
program = tt

abbrev east : List ℕ
east = 10 ∷ 0 ∷ 0 ∷ 1 ∷ []

abbrev west : List ℕ
west = 10 ∷ 0 ∷ 0 ∷ 2 ∷ []

abbrev group : List ℕ
group = 224 ∷ 0 ∷ 0 ∷ 18 ∷ []

-- An interval of 500 ms.
abbrev config_of : List ℕ → List ℕ → NodeConfig
config_of local remote = record {
  local_addr = some local;
  remote_addr = some remote;
  priority = 100;
  vrid = 60;
  master_advert_interval = 500000000;
  preempt = false;
}

abbrev started : Node
unfolding program
started = new_node (config_of east west) 0

abbrev promoted : Node
unfolding program
promoted = become_master started 2000000000

abbrev advertised : Node
unfolding program
advertised = (sender_tick promoted true).0

history : Reach started advertised
unfolding program
history = next (next here (ran 0 2000000000 timed_out refl)) (ticked true refl refl)

Reach-new_node-Inv_example : Inv advertised
unfolding program started
Reach-new_node-Inv_example = Reach-new_node-Inv (config_of east west) 0 history

abbrev peer : Node
unfolding program
peer = become_master (new_node (config_of west east) 0) 2000000000

two_masters_settle_example :
    (master_verdict promoted (new_advertisement peer) 5 ≡ backup)
    × (master_verdict peer (new_advertisement promoted) 6 ≡ leader)
unfolding program
two_masters_settle_example = two_masters_settle promoted peer east west 5 6 (record {
  a_local = refl;
  a_remote = refl;
  b_local = refl;
  b_remote = refl;
  distinct = λ e. grind arith;
})

abbrev on_group : List ℕ → Node
unfolding program
on_group local = new_node (config_of local group) 0

abbrev quiet : Advertisement
unfolding program
quiet = record (new_advertisement peer) { priority = 99 }

abbrev reassured : Node
unfolding program
reassured = (backup_handle_advertisement started quiet 7).0

abbrev slow : Advertisement
slow = record quiet { advert_int = 7000 }

abbrev east_conn : Conn
east_conn = record { laddr = ip4 10 0 0 1; raddr = ip4 224 0 0 18 }

abbrev west_conn : Conn
west_conn = record { laddr = ip4 10 0 0 2; raddr = ip4 224 0 0 18 }

quiet-IsAdvertisement : IsAdvertisement quiet
unfolding program
quiet-IsAdvertisement = omega arith

receive-send_example :
    (b : Advertisement) × (bytes : List ℕ) × (send east_conn quiet ≡ some (b, bytes))
    × (receive west_conn (packet_of east_conn bytes) ≡ some b)
    × (b ≡ record quiet { checksum = b.checksum })
unfolding program
receive-send_example =
    receive-send east_conn west_conn quiet (omega arith) (omega arith) quiet-IsAdvertisement refl
      refl
