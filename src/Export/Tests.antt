-- ===== src/Export/Tests.antt =====
-- The exports of a monitor that has seen a few tasks: the theorems at them.
use nexus_task.Prelude.{◌≡◌, refl}
use nexus_task.Text.{Bytes, codes, show_number}
use nexus_task.Monitor.{Metrics, initial}

abbrev seen : Metrics
seen = record initial { tasks_submitted = 12; tasks_completed = 10; tasks_failed = 1 }

abbrev printed : Bytes
printed = show_number 1205

digits_printed : printed ≡ codes "1205"
unfolding show_number
digits_printed = refl
