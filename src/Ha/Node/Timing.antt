-- ===== src/Ha/Node/Timing.antt =====
-- The master-down interval and the time at which a backup gives up on its master.
use seesaw.Base.{ℕ, ◌*◌, ◌/◌, ◌%◌, ◌≤◌, ◌<◌, ◌≡◌, arith, ap, u16}
use seesaw.Ha.Node.Defs.{
  backup, Advertisement, Node, new_advertisement, backup_handle_advertisement, down_interval,
}

-- The interval lies between three and four advertisement intervals, for every non-zero priority.
down_interval_bounds :
    (p i : ℕ) → p < 256 → (3 * i ≤ down_interval p i) × (down_interval p i ≤ 4 * i)
unfolding down_interval
down_interval_bounds p i h = (omega arith, grind arith)

-- Of two backups with the same advertisement interval, the one with the higher priority does not
-- wait longer for the master.
down_interval_mono : (p q i : ℕ) → p ≤ q → q < 256 → down_interval q i ≤ down_interval p i
unfolding down_interval
down_interval_mono p q i h k = grind arith

-- A backup that keeps following a master waits for the interval that the master is configured with,
-- scaled by the backup's own priority, if that interval is a multiple of 10 ms below 65.54 s.
pub advertised_interval_agrees :
    (master n : Node) (now : ℕ) {m : Node}
    → backup_handle_advertisement n (new_advertisement master) now ≡ (m, backup)
    → master.config.master_advert_interval % 10000000 ≡ 0
    → master.config.master_advert_interval < 65540000000
    → m.master_down_interval ≡ down_interval n.config.priority master.config.master_advert_interval
unfolding backup_handle_advertisement new_advertisement
advertised_interval_agrees master n now e whole small =
    let i = master.config.master_advert_interval in
    let exact : 1000000 * u16 (10 * u16 (i / 1000000 / 10)) ≡ i = omega arith in
    ground (arith, ap (down_interval n.config.priority) exact)

-- An advertised interval of 65.54 s or more is cut to 16 bits, and the backup then gives up on a live
-- master in less than three of the advertised intervals.
pub long_interval_is_cut :
    (n : Node) (advert : Advertisement) (now : ℕ) {m : Node}
    → backup_handle_advertisement n advert now ≡ (m, backup)
    → n.config.priority < 256
    → 6554 ≤ advert.advert_int
    → m.master_down_interval < 3 * (10000000 * advert.advert_int)
unfolding backup_handle_advertisement
long_interval_is_cut n advert now e p long =
    ground (arith, down_interval_bounds n.config.priority (1000000 * u16 (10 * advert.advert_int)))
