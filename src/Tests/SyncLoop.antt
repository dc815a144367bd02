-- ===== src/Tests/SyncLoop.antt =====
-- engine/sync.go: the override of one backend.
use seesaw.Engine.Vserver.Events.{override_disable}
use seesaw.Engine.Core.Defs.{backend_override}
use seesaw.Engine.SyncClient.Loop.{World, started, enable, Step, enables, Reach, here, next}
use seesaw.Engine.SyncClient.Deadlock.{GoesOn, IsDeadlocked, Reach-goes_on, deadlock_reached}
use seesaw.Base.{refl}

Reach-goes_on_example : GoesOn (enable started)
Reach-goes_on_example = Reach-goes_on (enable started) (next here (enables started refl)) refl

deadlock_reached_example : (w : World) × Reach w × IsDeadlocked w × ((v : World) → Step w v → ⊥)
deadlock_reached_example = deadlock_reached (backend_override 5 override_disable)
