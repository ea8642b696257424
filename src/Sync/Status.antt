-- ===== src/Sync/Status.antt =====
-- The statuses in memory after `sync_from_disk` of zerg/state_sync_service.py.
use zerg.Common.{
  ℕ, ◌+◌, ◌≡◌, refl, true, false, not, ◌&&◌, Option, none, some, [], ◌∷◌, String, ◌==◌, string_eq,
  if◌then◌else◌, arith, Option-cases, inl, inr,
}
use zerg.Common.Dict.{lookup, insert, contains, lookup-insert, IsDistinct}
use zerg.Constants.{value, complete, failed, in_progress}
use zerg.Levels.{Task, LevelController, put_task}
use zerg.Levels.Marks.{
  with_status, count_complete, count_failed, complete_task, mark_task_complete, mark_task_failed,
  mark_task_in_progress, assign_to,
}
use zerg.Levels.Tally.{update_level_tasks}
use zerg.Common.Int.{pos, ◌+ℤ◌}
use zerg.State.{TaskState, Tasks, is_status}
use zerg.Sync.{get_task_status, is_running, sync_task, sync_from_disk}

-- What the stored status makes of the status in memory.
unfoldable pub merged : Option String → Option String → Option String
merged disk memory =
    if is_status (value complete) disk
    then some (value complete)
    else if is_status (value failed) disk
    then some (value failed)
    else if is_running disk && not (is_running memory)
    then some (value in_progress)
    else memory

-- The status of task `j` when task `k` gets status `s`, if it is known.
abbrev given : String → String → String → LevelController → Option String
given k j s c = if k == j && contains k c.tasks then some s else get_task_status j c

mark_task_complete_tasks :
    (k : String) (now : ℕ) (c : LevelController)
    → (mark_task_complete k now c).1.tasks ≡ (elim (lookup k c.tasks) [
      | none ↦ c.tasks
      | some t ↦ insert k (with_status (value complete) t) c.tasks
    ])
unfolding mark_task_complete complete_task
mark_task_complete_tasks k now c = elim (Option-cases (lookup k c.tasks)) [
  | inl e ↦ ground arith
  | inr (t, e) ↦
      let put = put_task k (with_status (value complete) t) c in
      let c' = complete_task k t c in
      ground (
        arith,
        update_level_tasks t.level count_complete put,
        update_level_tasks t.level (λ s. record s { status = "complete"; completed_at = some now })
            c',
      )
]

-- Task `k` gets status `s` in the step from `c` to `c'`, if it is known, and no task comes or goes.
abbrev Gives : String → String → String → LevelController → LevelController → Type 0
Gives k j s c c' =
    (get_task_status j c' ≡ given k j s c) × (contains j c'.tasks ≡ contains j c.tasks)

mark_task_complete_status :
    (k j : String) (now : ℕ) (c : LevelController)
    → Gives k j (value complete) c (mark_task_complete k now c).1
unfolding get_task_status
mark_task_complete_status k j now c = elim (Option-cases (lookup k c.tasks)) [
  | inl e ↦ ground (arith, mark_task_complete_tasks k now c)
  | inr (t, e) ↦
      let t' = with_status (value complete) t in
      ground (
        arith,
        mark_task_complete_tasks k now c,
        lookup-insert k j t' c.tasks,
        string_eq.same_iff k j,
      )
]

mark_task_failed_status :
    (k j : String) (c : LevelController) → Gives k j (value failed) c (mark_task_failed k c)
unfolding get_task_status mark_task_failed
mark_task_failed_status k j c = elim (Option-cases (lookup k c.tasks)) [
  | inl e ↦ ground arith
  | inr (t, e) ↦
      let t' = with_status (value failed) t in
      ground (
        arith,
        update_level_tasks t.level count_failed (put_task k t' c),
        lookup-insert k j t' c.tasks,
        string_eq.same_iff k j,
      )
]

assigned_status : (w : Option ℕ) (t : Task) → (assign_to w t).status ≡ t.status
assigned_status none t = refl
assigned_status (some w) t = refl

mark_task_in_progress_status :
    (k j : String) (w : Option ℕ) (c : LevelController)
    → Gives k j (value in_progress) c (mark_task_in_progress k w c)
unfolding get_task_status mark_task_in_progress
mark_task_in_progress_status k j w c = elim (Option-cases (lookup k c.tasks)) [
  | inl e ↦ ground arith
  | inr (t, e) ↦
      let t' = assign_to w (with_status (value in_progress) t) in
      ground (
        arith,
        update_level_tasks t.level
            (λ s. record s { in_progress_tasks = s.in_progress_tasks +ℤ pos 1 }) (put_task k t' c),
        lookup-insert k j t' c.tasks,
        string_eq.same_iff k j,
        assigned_status w (with_status (value in_progress) t),
      )
]

-- A status that is there is that string.
is_status-some : (s : String) (o : Option String) → is_status s o ≡ true → o ≡ some s
is_status-some s none h = ground arith
is_status-some s (some v) h = ground (arith, string_eq.same_iff v s)

pub complete_apart :
    (o : Option String)
    → is_status (value complete) o ≡ true
    → (is_status (value failed) o ≡ false) × (is_running o ≡ false)
complete_apart o h = rw (is_status-some (value complete) o h) (refl, refl)

pub failed_apart : (o : Option String) → is_status (value failed) o ≡ true → is_running o ≡ false
failed_apart o h = rw (is_status-some (value failed) o h) refl

pub sync_task_status :
    (now : ℕ) (k j : String) (d : TaskState) (c : LevelController)
    → (get_task_status j (sync_task now k d c) ≡ (
        if k == j && contains k c.tasks
        then merged d.status (get_task_status k c)
        else get_task_status j c))
      × (contains j (sync_task now k d c).tasks ≡ contains j c.tasks)
unfolding sync_task merged
sync_task_status now k j d c = ground (
  arith,
  mark_task_complete_status k j now c,
  mark_task_failed_status k j c,
  mark_task_in_progress_status k j d.worker_id c,
  is_status-some (value complete) (get_task_status k c),
  is_status-some (value failed) (get_task_status k c),
  complete_apart d.status,
  failed_apart d.status,
  string_eq.same_iff k j,
)

-- After reading the stored tasks, which have distinct IDs, a task that the controller knows is
-- complete if it is stored as complete and failed if it is stored as failed; it is in progress if it
-- is stored as claimed or in progress and was neither in memory; in all other cases it keeps its
-- status. A task that the controller does not know stays unknown.
pub sync_from_disk_status :
    (clock : ℕ → ℕ) (disk : Tasks) (j : String) (c : LevelController)
    → IsDistinct disk
    → (get_task_status j (sync_from_disk clock disk c) ≡ (elim (lookup j disk) [
      | none ↦ get_task_status j c
      | some d ↦
          if contains j c.tasks then merged d.status (get_task_status j c) else get_task_status j c
    ]))
      × (contains j (sync_from_disk clock disk c).tasks ≡ contains j c.tasks)
unfolding sync_from_disk lookup
sync_from_disk_status clock [] j c u = (refl, refl)
sync_from_disk_status clock ((k, d) ∷ disk) j c (fresh, u) =
    let c' = sync_task (clock 0) k d c in
    ground (
      arith,
      sync_from_disk_status (λ i. clock (i + 1)) disk j c' u,
      sync_task_status (clock 0) k j d c,
      string_eq.same_iff k j,
    )
