-- ===== src/State/Claims.antt =====
-- What a call of zerg/state/task_repo.py does to the entry of each task, and what a claim needs.
use zerg.Common.{
  is_empty, ℕ, ◌≡◌, refl, Bool, true, not, ◌&&◌, Option, none, some, List, [], ◌∷◌, String, ◌==◌,
  nat_eq, string_eq, if◌then◌else◌, get_or, all, arith, ◌⊎◌, beq_refl, select,
}
use zerg.Common.Dict.{Dict, lookup, insert, lookup-insert}
use zerg.Constants.{value, claimed, complete, pending}
use zerg.State.{
  TaskState, Tasks, entry, get_task_status, is_status, set_task_status, restated,
  record_task_claimed, get_incomplete_dependencies, are_dependencies_complete, is_empty,
  refuses_claim, claim_task, release_task, is_claimable, owns,
}

pub entry-insert :
    (k j : String) (t : TaskState) (tasks : Tasks)
    → entry j (insert k t tasks) ≡ (if k == j then t else entry j tasks)
unfolding entry
entry-insert k j t tasks = ground (arith, lookup-insert k j t tasks)

-- The entries after a call on task `k`.
pub entry-set_task_status :
    (k j status : String) (w : Option ℕ) (e : Option String) (now now' : ℕ) (tasks : Tasks)
    → entry j (set_task_status k status w e now now' tasks)
      ≡ (if k == j then restated status w e now now' (entry k tasks) else entry j tasks)
unfolding set_task_status
entry-set_task_status k j status w e now now' tasks = entry-insert k j _ tasks

pub entry-record_task_claimed :
    (k j : String) (w now : ℕ) (tasks : Tasks)
    → entry j (record_task_claimed k w now tasks) ≡ (
        if k == j
        then record (entry k tasks) { claimed_at = some now; worker_id = some w }
        else entry j tasks)
unfolding record_task_claimed
entry-record_task_claimed k j w now tasks = entry-insert k j _ tasks

-- The entry of a task that a worker has just claimed.
abbrev pub claimed_entry : ℕ → ℕ → ℕ → TaskState → TaskState
claimed_entry w now now' t = record (restated (value claimed) (some w) none now now t) {
  claimed_at = some now';
  worker_id = some w;
}

pub entry-claim_task :
    (k j : String) (w now now' : ℕ) (l : Option ℕ) (d : Option (Dict String (List String)))
    (tasks : Tasks)
    → entry j (claim_task k w l d now now' tasks).1 ≡ (
        if not (refuses_claim k w l d tasks) && (k == j)
        then claimed_entry w now now' (entry k tasks)
        else entry j tasks)
unfolding claim_task
entry-claim_task k j w now now' l d tasks =
    let written = set_task_status k (value claimed) (some w) none now now tasks in
    ground (
      arith,
      entry-record_task_claimed k j w now' written,
      entry-set_task_status k j (value claimed) (some w) none now now tasks,
      entry-set_task_status k k (value claimed) (some w) none now now tasks,
      beq_refl k,
    )

pub entry-release_task :
    (k j : String) (w : ℕ) (tasks : Tasks)
    → entry j (release_task k w tasks) ≡ (
        if owns (entry k tasks).worker_id w && (k == j)
        then record (entry k tasks) { status = some (value pending); worker_id = none }
        else entry j tasks)
unfolding release_task
entry-release_task k j w tasks = ground (
  arith,
  entry-insert k j (record (entry k tasks) { status = some (value pending); worker_id = none })
      tasks,
)

all_of_no_select :
    {A : Type 0} (p : A → Bool) (xs : List A)
    → is_empty (select (λ x. not (p x)) xs) ≡ true
    → all p xs ≡ true
all_of_no_select p [] h = refl
all_of_no_select p (x ∷ xs) h = ground (arith, all_of_no_select p xs)

are_dependencies_complete-all :
    (dependencies : Dict String (List String)) (k : String) (tasks : Tasks)
    → are_dependencies_complete dependencies k tasks ≡ true
    → all
        (λ d. is_status (value complete) (get_task_status d tasks))
        (get_or (lookup k dependencies) [])
      ≡ true
unfolding are_dependencies_complete get_incomplete_dependencies
are_dependencies_complete-all dependencies k tasks h =
    all_of_no_select (λ d. is_status (value complete) (get_task_status d tasks))
      (get_or (lookup k dependencies) []) h

pub claim_task_answer :
    (k : String) (w now now' : ℕ) (l : Option ℕ) (d : Option (Dict String (List String)))
    (tasks : Tasks)
    → (claim_task k w l d now now' tasks).0 ≡ not (refuses_claim k w l d tasks)
unfolding claim_task
claim_task_answer k w now now' l d tasks = ground arith

-- A claim that succeeds: the task was pending or new and no other worker's, it was at the level
-- asked for, each of its dependencies was complete, and now it is claimed by this worker.
pub claim_task_success :
    (k : String) (w now now' current : ℕ) (dependencies : Dict String (List String)) (tasks : Tasks)
    → (claim_task k w (some current) (some dependencies) now now' tasks).0 ≡ true
    → let t = entry k tasks in
      let t' = entry k (claim_task k w (some current) (some dependencies) now now' tasks).1 in
      (all
          (λ d. is_status (value complete) (get_task_status d tasks))
          (get_or (lookup k dependencies) [])
        ≡ true)
      × (t.level ≡ some current)
      × (is_claimable (get_or t.status (value pending)) ≡ true)
      × ((t.worker_id ≡ none) ⊎ (t.worker_id ≡ some w))
      × (t'.status ≡ some (value claimed))
      × (t'.worker_id ≡ some w)
      × (t'.level ≡ some current)
unfolding refuses_claim
claim_task_success k w now now' current dependencies tasks h =
    let answer = claim_task_answer k w now now' (some current) (some dependencies) tasks in
    let after = entry-claim_task k k w now now' (some current) (some dependencies) tasks in
    let free : are_dependencies_complete dependencies k tasks ≡ true = ground arith in
    (
      are_dependencies_complete-all dependencies k tasks free,
      ground arith,
      ground arith,
      ground arith,
      ground (arith, beq_refl k),
      ground (arith, beq_refl k),
      ground (arith, beq_refl k),
    )
