-- ===== src/Health/Tests.antt =====
-- A monitor with a double of whole numbers: the theorem at it.
use nexus_task.Prelude.{ℕ, ◌≤◌, ◌≡◌, ◌↔◌, true, false, none, some, ltb, leb, ◌/◌}
use nexus_task.Text.{show_number}
use nexus_task.Monitor.{Metrics, initial}
use nexus_task.Monitor.Snapshot.{Double, throughput_per_second}
use nexus_task.Health.{new_monitor, check, get_last_status, is_healthy, set_thresholds}
use nexus_task.Health.Verdict.{check_lem}

abbrev whole : Double
whole = record {
  D = ℕ;
  zero = 0;
  one = 1;
  of_word = λ n. n;
  seconds = λ n. n / 1000000000;
  less = ltb;
  at_most = leb;
  quotient = λ m n. m / n;
  show = show_number;
}

-- Ten tasks in two seconds.
abbrev counted : Metrics
counted = record initial { inflight_tasks = 3; tasks_completed = 10 }

check_lem_example :
    let h = set_thresholds {double = whole} 3 10 4 new_monitor in
    (((is_healthy 9 (some (counted, 5, 2000000005)) 11 h).1 ≡ true)
      ↔ ((3 ≤ 3) × (11 ≤ 10) × (ltb (throughput_per_second whole 2000000005 5 counted) 4 ≡ false)))
    × (get_last_status (check 9 (some (counted, 5, 2000000005)) 11 h).0
        ≡ (check 9 (some (counted, 5, 2000000005)) 11 h).1)
    × ((is_healthy 9 none 11 h).1 ≡ false)
    × (get_last_status (check 9 none 11 h).0 ≡ get_last_status {double = whole} new_monitor)
check_lem_example = check_lem {double = whole} 9 5 2000000005 11 3 10 4 counted new_monitor
