-- ===== src/State/Exclusive.antt =====
-- Interleaved calls of many workers on the stored tasks of zerg/state/task_repo.py.
use zerg.Common.{
  ℕ, ◌≡◌, Bool, true, false, not, ◌||◌, Option, some, List, [], ◌∷◌, String, ◌==◌, nat_eq,
  string_eq, get_or, all, arith, beq_refl,
}
use zerg.Common.Dict.{Dict}
use zerg.Constants.{value, claimed, pending}
use zerg.State.{
  Tasks, entry, set_task_status, refuses_claim, claim_task, release_task, is_claimable,
}
use zerg.State.Claims.{
  entry-claim_task, claim_task_answer, entry-release_task, entry-set_task_status,
}

-- A call of some worker or of the orchestrator on the shared state.
pub data Op : Type 0 where
  claim :
      (k : String) (w : ℕ) (level : Option ℕ) (checker : Option (Dict String (List String)))
      (now now' : ℕ)
      → Op
  release : (k : String) (w : ℕ) → Op
  set_status : (k status : String) (w : Option ℕ) (error : Option String) (now now' : ℕ) → Op

-- Whether the call answers that it claimed a task, and the state after it.
unfoldable pub apply : Op → Tasks → Bool × Tasks
apply (claim k w l d now now') tasks = claim_task k w l d now now' tasks
apply (release k w) tasks = (false, release_task k w tasks)
apply (set_status k s w e now now') tasks = (false, set_task_status k s w e now now' tasks)

unfoldable pub run : List Op → Tasks → Tasks
run [] tasks = tasks
run (op ∷ ops) tasks = run ops (apply op tasks).1

-- The call neither writes the status of task `k` nor is a release of it by worker `w`.
abbrev pub leaves : String → ℕ → Op → Bool
leaves k w (claim j v l d now now') = true
leaves k w (release j v) = not (j == k) || not (v == w)
leaves k w (set_status j s v e now now') = not (j == k)

pub record IsHeld (k : String) (w : ℕ) (tasks : Tasks) : Type 0 where
  pub status : (entry k tasks).status ≡ some (value claimed)
  pub worker : (entry k tasks).worker_id ≡ some w

refuses_held :
    (k : String) (w v : ℕ) (l : Option ℕ) (d : Option (Dict String (List String))) (tasks : Tasks)
    → IsHeld k w tasks
    → refuses_claim k v l d tasks ≡ true
unfolding refuses_claim
refuses_held k w v l d tasks h =
    let unclaimable : is_claimable (get_or (entry k tasks).status (value pending)) ≡ false =
      rw h.status in
    ground arith

apply-IsHeld :
    (op : Op) (k : String) (w : ℕ) (tasks : Tasks)
    → leaves k w op ≡ true
    → IsHeld k w tasks
    → IsHeld k w (apply op tasks).1
unfolding apply
apply-IsHeld (claim j v l d now now') k w tasks q h = ground (
  arith,
  entry-claim_task j k v now now' l d tasks,
  refuses_held k w v l d tasks h,
  string_eq.same_iff j k,
)
apply-IsHeld (release j v) k w tasks q h =
    ground (arith, entry-release_task j k v tasks, string_eq.same_iff j k)
apply-IsHeld (set_status j s v e now now') k w tasks q h =
    ground (arith, entry-set_task_status j k s v e now now' tasks)

run-IsHeld :
    (ops : List Op) (k : String) (w : ℕ) (tasks : Tasks)
    → all (leaves k w) ops ≡ true
    → IsHeld k w tasks
    → IsHeld k w (run ops tasks)
unfolding run
run-IsHeld [] k w tasks q h = h
run-IsHeld (op ∷ ops) k w tasks q h =
    run-IsHeld ops k w (apply op tasks).1 (ground arith)
      (apply-IsHeld op k w tasks (ground arith) h)

pub claim_task-IsHeld :
    (k : String) (w now now' : ℕ) (l : Option ℕ) (d : Option (Dict String (List String)))
    (tasks : Tasks)
    → (claim_task k w l d now now' tasks).0 ≡ true
    → IsHeld k w (claim_task k w l d now now' tasks).1
claim_task-IsHeld k w now now' l d tasks h = ground (
  arith,
  claim_task_answer k w now now' l d tasks,
  entry-claim_task k k w now now' l d tasks,
  beq_refl k,
)

-- After a successful claim no worker claims the task, the claimer included, through any calls of
-- any workers, until its status is written or its own worker releases it.
pub claim_task_exclusive :
    (ops : List Op) (k : String) (w v now now' later later' : ℕ) (l l' : Option ℕ)
    (d d' : Option (Dict String (List String))) (tasks : Tasks)
    → (claim_task k w l d now now' tasks).0 ≡ true
    → all (leaves k w) ops ≡ true
    → (claim_task k v l' d' later later' (run ops (claim_task k w l d now now' tasks).1)).0 ≡ false
claim_task_exclusive ops k w v now now' later later' l l' d d' tasks h q =
    let held =
      run-IsHeld ops k w (claim_task k w l d now now' tasks).1 q
        (claim_task-IsHeld k w now now' l d tasks h) in
    let after = run ops (claim_task k w l d now now' tasks).1 in
    ground
      (arith, claim_task_answer k v later later' l' d' after, refuses_held k w v l' d' after held)
