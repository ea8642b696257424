-- ===== src/Coordinator/Stored.antt =====
-- What the statuses of a level are after zerg/state/level_repo.py has set one of them.
use zerg.Common.{
  ℕ, ◌≡◌, refl, ap, ◌∙◌, Option, none, some, String, ◌==◌, nat_eq, string_eq, if◌then◌else◌, get_or,
  arith, beq_refl,
}
use zerg.Common.Dict.{lookup, lookup-insert, lookup-insert_self}
use zerg.State.LevelRepo.{
  LevelMergeStatus, StoredLevel, LevelState, level_state, no_level, stated_level, set_commit,
  merged_level, merge, set_level_status, set_level_merge_status, get_level_merge_status,
  get_level_merge_status-set_level_merge_status,
}

abbrev pub some_status : Option StoredLevel → Option String
some_status none = none
some_status (some x) = x.status

abbrev pub stored_status : ℕ → LevelState → Option String
stored_status level l = some_status (lookup level l.levels)

-- All levels but one are as before.
abbrev pub SameOthers : ℕ → LevelState → LevelState → Type 0
SameOthers level l l' =
    (k : ℕ)
    → (if level == k then none else lookup k l'.levels)
      ≡ (if level == k then none else lookup k l.levels)

set_commit_status :
    (commit : Option String) (l : StoredLevel) → (set_commit commit l).status ≡ l.status
set_commit_status none l = refl
set_commit_status (some c) l = ground arith

stated_level_status :
    (status : String) (commit : Option String) (clock : ℕ → ℕ) (l : StoredLevel)
    → (stated_level status commit clock l).status ≡ some status
stated_level_status status commit clock l = ground (
  arith,
  set_commit_status commit (record l { status = some status; updated_at = some (clock 0) }),
)

set_level_status_lem :
    (level : ℕ) (status : String) (commit : Option String) (clock : ℕ → ℕ) (l : LevelState)
    → (stored_status level (set_level_status level status commit clock l) ≡ some status)
      × SameOthers level l (set_level_status level status commit clock l)
unfolding set_level_status
set_level_status_lem level status commit clock l =
    let x = stated_level status commit clock (level_state level l) in
    (
      rw (lookup-insert_self level x l.levels)
          (stated_level_status status commit clock (level_state level l)),
      λ k. ground (arith, lookup-insert level k x l.levels),
    )

merged_level_kept :
    (status : LevelMergeStatus) (details : Option String) (clock : ℕ → ℕ) (l : StoredLevel)
    → (merged_level status details clock l).status ≡ l.status
merged_level_kept status none clock l = ground arith
merged_level_kept status (some d) clock l = ground arith

status_or_new : (x : Option StoredLevel) → some_status (some (get_or x no_level)) ≡ some_status x
status_or_new none = refl
status_or_new (some x) = refl

set_level_merge_status_lem :
    (level : ℕ) (status : LevelMergeStatus) (details : Option String) (clock : ℕ → ℕ)
    (l : LevelState)
    → (stored_status level (set_level_merge_status level status details clock l)
        ≡ stored_status level l)
      × SameOthers level l (set_level_merge_status level status details clock l)
unfolding set_level_merge_status
set_level_merge_status_lem level status details clock l =
    let x = merged_level status details clock (level_state level l) in
    (
      ap some_status (lookup-insert_self level x l.levels)
          ∙ merged_level_kept status details clock (level_state level l)
          ∙ status_or_new (lookup level l.levels),
      λ k. ground (arith, lookup-insert level k x l.levels),
    )

-- After a merge status is set, given which levels may have changed before.
pub remarked :
    (level : ℕ) (m : LevelMergeStatus) (details : Option String) (clock : ℕ → ℕ) (l l₀ : LevelState)
    → SameOthers level l₀ l
    → let l' = set_level_merge_status level m details clock l in
      (stored_status level l' ≡ stored_status level l)
      × (get_level_merge_status level l' ≡ merge m)
      × SameOthers level l₀ l'
remarked level m details clock l l₀ same =
    let (e, others) = set_level_merge_status_lem level m details clock l in
    (
      e,
      get_level_merge_status-set_level_merge_status level level m details clock l
          ∙ rw (beq_refl level) refl,
      λ k. others k ∙ same k,
    )

pub completed :
    (level : ℕ) (commit : Option String) (clock : ℕ → ℕ) (l l₀ : LevelState)
    → SameOthers level l₀ l
    → let l' = set_level_status level "complete" commit clock l in
      (stored_status level l' ≡ some "complete") × SameOthers level l₀ l'
completed level commit clock l l₀ same =
    let (e, others) = set_level_status_lem level "complete" commit clock l in
    (e, λ k. others k ∙ same k)
