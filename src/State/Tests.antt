-- ===== src/State/Tests.antt =====
-- Runs of zerg/state/task_repo.py: two workers and three tasks.
use zerg.Common.{
  length, ℕ, ◌≡◌, ◌⊎◌, refl, true, false, none, some, List, [], ◌∷◌, String, string_eq, nat_eq, all,
  get_or,
}
use zerg.Common.Dict.{Dict, lookup, insert}
use zerg.Constants.{value, complete, claimed, pending}
use zerg.State.LevelRepo.{
  LevelState, LevelMergeStatus, merge, set_level_status, set_level_merge_status,
  get_level_merge_status,
}
use zerg.State.Log.{append_event, get_events}
use zerg.State.{
  get_dependency_status, get_all_dependencies, TaskState, Tasks, empty, entry, get_task_status,
  is_status, set_task_status, record_task_claimed, get_incomplete_dependencies,
  are_dependencies_complete, refuses_claim, claim_task, is_claimable, get_tasks_by_status,
}
use zerg.State.Claims.{claim_task_success}
use zerg.State.Exclusive.{Op, claim, release, run, claim_task_exclusive}

abbrev with_level : ℕ → String → TaskState
with_level l status = record empty { level = some l; status = some status }

abbrev three_tasks : Tasks
three_tasks =
    ("A", with_level 1 "complete")
    ∷ ("B", with_level 2 "pending")
    ∷ ("C", with_level 2 "pending")
    ∷ []

abbrev graph : Dict String (List String)
graph = ("A", []) ∷ ("B", "A" ∷ []) ∷ ("C", "A" ∷ "B" ∷ []) ∷ []

waits_for_dependencies : (claim_task "C" 1 (some 2) (some graph) 10 11 three_tasks).0 ≡ false
unfolding claim_task refuses_claim are_dependencies_complete get_incomplete_dependencies
    get_task_status entry lookup insert
waits_for_dependencies = refl

claims_by_status :
    get_tasks_by_status "claimed" (claim_task "B" 1 (some 2) (some graph) 10 11 three_tasks).1
    ≡ "B" ∷ []
unfolding claim_task refuses_claim are_dependencies_complete get_incomplete_dependencies
    get_task_status entry lookup insert get_tasks_by_status set_task_status record_task_claimed
claims_by_status = refl

claim_task_success_example :
    let t = entry "B" three_tasks in
    let t' = entry "B" (claim_task "B" 1 (some 2) (some graph) 10 11 three_tasks).1 in
    (all
        (λ d. is_status (value complete) (get_task_status d three_tasks))
        (get_or (lookup "B" graph) [])
      ≡ true)
    × (t.level ≡ some 2)
    × (is_claimable (get_or t.status (value pending)) ≡ true)
    × ((t.worker_id ≡ none) ⊎ (t.worker_id ≡ some 1))
    × (t'.status ≡ some (value claimed))
    × (t'.worker_id ≡ some 1)
    × (t'.level ≡ some 2)
unfolding claim_task refuses_claim are_dependencies_complete get_incomplete_dependencies
    get_task_status entry lookup insert
claim_task_success_example = claim_task_success "B" 1 10 11 2 graph three_tasks refl

-- Another worker tries, releases what it does not own, and a third task is claimed.
abbrev interleaved : List Op
interleaved =
    claim "B" 2 (some 2) (some graph) 12 13 ∷ release "B" 2 ∷ claim "A" 2 none none 14 15 ∷ []

claim_task_exclusive_example :
    (claim_task "B" 2
      (some 2)
      (some graph)
      20
      21
      (run interleaved (claim_task "B" 1 (some 2) (some graph) 10 11 three_tasks).1)).0
    ≡ false
unfolding claim_task refuses_claim are_dependencies_complete get_incomplete_dependencies
    get_task_status entry lookup insert
claim_task_exclusive_example =
    claim_task_exclusive interleaved "B" 1 2 10 11 20 21 (some 2) (some 2) (some graph) (some graph)
      three_tasks refl refl

reports_dependencies :
    get_dependency_status graph "C" three_tasks ≡ ("A", "complete") ∷ ("B", "pending") ∷ []
unfolding get_dependency_status get_all_dependencies get_task_status lookup insert
reports_dependencies = refl

-- A level in conflict, which is complete after the conflict is resolved.
abbrev level_one : LevelState
level_one =
    set_level_merge_status 1 LevelMergeStatus.conflict (some "a.py") (λ i. i)
      (set_level_status 1 "running" none (λ i. i) (record { current_level = none; levels = [] }))

conflict_read : get_level_merge_status 1 level_one ≡ merge LevelMergeStatus.conflict
unfolding get_level_merge_status set_level_merge_status set_level_status lookup insert
conflict_read = refl

-- The last two of three events.
last_events :
    length (
      get_events (some 2) (
        append_event "c" none 3 (
          append_event "b" none 2 (
            append_event "a" none 1 (record { execution_log = []; paused = none; error = none })))))
    ≡ 2
unfolding get_events append_event
last_events = refl
