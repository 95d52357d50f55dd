-- ===== src/Batch/Cancel.antt =====
-- What `cancel_all` leaves.
use nexus_task.Prelude.{ℕ, List, [], ◌∷◌}
use nexus_task.Executor
use nexus_task.Executor.{Executor}
use nexus_task.Executor.Flags.{Gone}

module _ {S R : Type 0} where
  abbrev pub AllGone : Executor S R → List ℕ → Type 0
  AllGone x [] = Unit
  AllGone x (id ∷ ids) = Gone x id × AllGone x ids
