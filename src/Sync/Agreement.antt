-- ===== src/Sync/Agreement.antt =====
-- The counters of the levels after `sync_from_disk` of zerg/state_sync_service.py.
use zerg.Common.{
  ℕ, ◌+◌, ◌≡◌, Bool, true, false, not, ◌&&◌, ◌||◌, Option, none, some, [], ◌∷◌, String, nat_eq,
  string_eq, if◌then◌else◌, arith, Bool-cases, inl, inr, All,
}
use zerg.Common.Dict.{lookup, contains, IsDistinct}
use zerg.Constants.{value, complete, failed}
use zerg.Levels.{Task, LevelController, is_terminal, is_level_resolved}
use zerg.Levels.Tally.{IsTallied}
use zerg.Levels.Steps.{
  IsOpen, mark_task_complete-IsTallied, mark_task_failed-IsTallied, mark_task_in_progress-IsTallied,
}
use zerg.Levels.Resolved.{all_terminal, is_level_resolved-IsTallied}
use zerg.State.{TaskState, Tasks, is_status}
use zerg.Sync.{get_task_status, is_running, sync_task, sync_from_disk}
use zerg.Sync.Status.{sync_task_status, complete_apart, failed_apart}

-- The stored status of a task leaves one that is complete or failed in memory.
abbrev pub leaves_settled : Option String → Option String → Bool
leaves_settled disk memory =
    if is_status (value complete) memory
    then not (is_status (value failed) disk) && not (is_running disk)
    else if is_status (value failed) memory
    then not (is_status (value complete) disk) && not (is_running disk)
    else true

abbrev pub LeavesSettled : Tasks → LevelController → Type 0
LeavesSettled disk c = All (λ e. leaves_settled e.1.status (get_task_status e.0 c) ≡ true) disk

status_of :
    (k : String) (t : Task) (c : LevelController)
    → lookup k c.tasks ≡ some t
    → is_terminal t ≡ (
        is_status (value complete) (get_task_status k c)
        || is_status (value failed) (get_task_status k c))
unfolding get_task_status
status_of k t c e = ground arith

IsOpen-of_status :
    (k : String) (c : LevelController)
    → is_status (value complete) (get_task_status k c) ≡ false
    → is_status (value failed) (get_task_status k c) ≡ false
    → IsOpen k c
IsOpen-of_status k c nc nf t e = ground (arith, status_of k t c e)

abbrev settled : Option String → Bool
settled o = is_status (value complete) o || is_status (value failed) o

sync_task-settled :
    (now : ℕ) (k : String) (d : TaskState) (c : LevelController)
    → leaves_settled d.status (get_task_status k c) ≡ true
    → settled (get_task_status k c) ≡ true
    → sync_task now k d c ≡ c
unfolding sync_task
sync_task-settled now k d c s h =
    ground
      (arith, complete_apart d.status, failed_apart d.status, complete_apart (get_task_status k c))

sync_task_open :
    (now : ℕ) (k : String) (d : TaskState) (c : LevelController)
    → IsOpen k c
    → IsTallied c
    → IsTallied (sync_task now k d c)
unfolding sync_task
sync_task_open now k d c o v =
    let level_status = get_task_status k c in
    elim (Bool-cases
      (is_status (value complete) d.status && not (is_status (value complete) level_status))) [
        | inl e ↦ rw (e, sync_task) (mark_task_complete-IsTallied k now c o v)
        | inr e ↦
            elim (Bool-cases
              (is_status (value failed) d.status && not (is_status (value failed) level_status))) [
                | inl e' ↦ rw (e, e', sync_task) (mark_task_failed-IsTallied k c o v)
                | inr e' ↦
                    elim (Bool-cases (is_running d.status && not (is_running level_status))) [
                      | inl e'' ↦
                          rw (e, e', e'', sync_task)
                            (mark_task_in_progress-IsTallied k d.worker_id c o v)
                      | inr e'' ↦ rw (e, e', e'', sync_task) v
                    ]
              ]
      ]

sync_task-IsTallied :
    (now : ℕ) (k : String) (d : TaskState) (c : LevelController)
    → leaves_settled d.status (get_task_status k c) ≡ true
    → IsTallied c
    → IsTallied (sync_task now k d c)
sync_task-IsTallied now k d c s v = elim (Bool-cases (settled (get_task_status k c))) [
  | inl h ↦ rw (sync_task-settled now k d c s h) v
  | inr h ↦ sync_task_open now k d c (IsOpen-of_status k c (ground arith) (ground arith)) v
]

LeavesSettled-after :
    (now : ℕ) (k : String) (d : TaskState) (disk : Tasks) (c : LevelController)
    → lookup k disk ≡ none
    → LeavesSettled disk c
    → LeavesSettled disk (sync_task now k d c)
unfolding lookup
LeavesSettled-after now k d [] c fresh s = tt
LeavesSettled-after now k d ((j, e) ∷ disk) c fresh (here, there) = (
  ground (arith, sync_task_status now k j d c, string_eq.same_iff k j, string_eq.same_iff j k),
  LeavesSettled-after now k d disk c (ground arith) there,
)

sync_from_disk-IsTallied :
    (clock : ℕ → ℕ) (disk : Tasks) (c : LevelController)
    → IsDistinct disk
    → LeavesSettled disk c
    → IsTallied c
    → IsTallied (sync_from_disk clock disk c)
unfolding sync_from_disk
sync_from_disk-IsTallied clock [] c u s v = v
sync_from_disk-IsTallied clock ((k, d) ∷ disk) c (fresh, u) (here, there) v =
    sync_from_disk-IsTallied (λ i. clock (i + 1)) disk (sync_task (clock 0) k d c) u
      (LeavesSettled-after (clock 0) k d disk c fresh there)
      (sync_task-IsTallied (clock 0) k d c here v)

-- If the counters of the levels are true and no stored status moves a task that is complete or
-- failed in memory, then after reading the stored tasks, with distinct IDs, a level is resolved
-- exactly when it exists and each of its tasks is complete or failed.
pub sync_from_disk_resolved :
    (clock : ℕ → ℕ) (disk : Tasks) (c : LevelController) (l : ℕ)
    → IsDistinct disk
    → LeavesSettled disk c
    → IsTallied c
    → let c' = sync_from_disk clock disk c in
      is_level_resolved l c' ≡ (contains l c'.levels && all_terminal l c'.tasks)
sync_from_disk_resolved clock disk c l u s v =
    is_level_resolved-IsTallied l _ (sync_from_disk-IsTallied clock disk c u s v)
