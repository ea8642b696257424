-- ===== src/Sync/Tests.antt =====
-- Runs of zerg/state_sync_service.py: task A is in progress in memory and complete on disk.
use zerg.Common.{ℕ, ◌+◌, ◌≡◌, refl, true, ◌&&◌, some, [], ◌∷◌, String, nat_eq, string_eq, arith}
use zerg.Common.Dict.{lookup, contains, IsDistinct}
use zerg.Constants.{Level}
use zerg.Levels.{Task, LevelController, new_status, is_level_resolved}
use zerg.Levels.Tally.{IsTallied}
use zerg.Levels.Resolved.{all_terminal}
use zerg.State.{TaskState, Tasks, empty}
use zerg.Sync.{get_task_status, sync_from_disk}
use zerg.Sync.Status.{merged, sync_from_disk_status}
use zerg.Sync.Agreement.{LeavesSettled, sync_from_disk_resolved}

abbrev task : String → String → Task
task id status = record { id = id; level = 1; status = some status; assigned_worker = some 1 }

abbrev memory : LevelController
memory = record {
  levels = (1, new_status Level.foundation 2) ∷ [];
  tasks = ("A", task "A" "in_progress") ∷ ("B", task "B" "pending") ∷ [];
  current_level = 1;
  started = true;
}

abbrev stored : String → TaskState
stored status = record empty { status = some status; worker_id = some 1 }

abbrev disk : Tasks
disk = ("A", stored "complete") ∷ ("B", stored "claimed") ∷ ("X", stored "failed") ∷ []

clock : ℕ → ℕ
clock i = 50 + i

disk-IsDistinct : IsDistinct disk
unfolding lookup
disk-IsDistinct = (refl, (refl, (refl, tt)))

sync_from_disk_status_example :
    (get_task_status "B" (sync_from_disk clock disk memory)
      ≡ merged (some "claimed") (get_task_status "B" memory))
    × (contains "B" (sync_from_disk clock disk memory).tasks ≡ contains "B" memory.tasks)
unfolding lookup
sync_from_disk_status_example = sync_from_disk_status clock disk "B" memory disk-IsDistinct

-- The totals and the counters of the only level, and of no other.
memory-IsTallied : IsTallied memory
unfolding lookup
memory-IsTallied = record { level = λ l. ground arith }

memory-LeavesSettled : LeavesSettled disk memory
unfolding get_task_status lookup
memory-LeavesSettled = (refl, (refl, (refl, tt)))

sync_from_disk_resolved_example :
    let c' = sync_from_disk clock disk memory in
    is_level_resolved 1 c' ≡ (contains 1 c'.levels && all_terminal 1 c'.tasks)
sync_from_disk_resolved_example =
    sync_from_disk_resolved clock disk memory 1 disk-IsDistinct memory-LeavesSettled
      memory-IsTallied
