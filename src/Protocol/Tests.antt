-- ===== src/Protocol/Tests.antt =====
-- Runs of zerg/protocol_state.py next to another worker.
use zerg.Common.{
  ℕ, ◌≡◌, refl, true, Option, none, some, [], ◌∷◌, String, ◌==◌, nat_eq, if◌then◌else◌, arith,
}
use zerg.Common.Dict.{insert, lookup}
use zerg.State.{
  TaskState, empty, entry, claim_task, refuses_claim, set_task_status, record_task_claimed,
  get_tasks_by_status,
}
use zerg.State.LevelRepo.{get_current_level}
use zerg.Protocol.{Shared, Protocol, claim_first, claim_loop, claim_next_task, report_complete}
use zerg.Protocol.Claiming.{Remembers, claim_next_task_lem}

abbrev task : TaskState
task = record empty { level = some 1; status = some "pending" }

abbrev shared : Shared
shared = record {
  tasks = ("A", task) ∷ ("B", task) ∷ [];
  level_state = record { current_level = some 1; levels = [] };
  workers = [];
  execution = record { execution_log = []; paused = none; error = none };
}

abbrev protocol : Protocol
protocol = record {
  worker_id = 1;
  branch = "w1";
  worktree_path = "/w1";
  started_at = some 0;
  checker = none;
  tasks_completed = 0;
  current_task = none;
  is_ready = true;
}

-- Worker 2 claims "A" after worker 1 has listed the pending tasks.
abbrev others : ℕ → Shared → Shared
others i s =
    if i == 1 then record s { tasks = (claim_task "A" 2 (some 1) none 5 5 s.tasks).1 } else s

abbrev task_of : Option (Option String × (Protocol × Shared)) → Option String
task_of none = none
task_of (some (a, rest)) = a

claims_the_other :
    task_of (claim_next_task protocol others (λ i. i) (λ i. 0) (λ i. 0) 3 10 2 shared) ≡ some "B"
unfolding claim_next_task claim_loop claim_first get_tasks_by_status get_current_level claim_task
    refuses_claim set_task_status record_task_claimed entry lookup insert
claims_the_other = refl

-- With no task left it gives up.
gives_up :
    task_of (
      claim_next_task protocol others
        (λ i. i)
        (λ i. 0)
        (λ i. 0)
        3
        10
        2
        (record shared { tasks = ("A", task) ∷ [] }))
    ≡ none
unfolding claim_next_task claim_loop claim_first get_tasks_by_status get_current_level claim_task
    refuses_claim set_task_status record_task_claimed entry lookup insert
gives_up = refl

counts_completed : (report_complete protocol "A" 7 0 "data" shared).0.tasks_completed ≡ 1
unfolding report_complete
counts_completed = refl

claim_next_task_lem_example :
    (a : Option String) × (p' : Protocol) × (s' : Shared) × (claim_next_task protocol others
        (λ i. i)
        (λ i. 0)
        (λ i. 0)
        3
        10
        2
        shared
      ≡ some (a, (p', s')))
    × Remembers protocol a p' s'
claim_next_task_lem_example =
    claim_next_task_lem protocol others (λ i. i) (λ i. 0) (λ i. 0) 3 10 2 shared (omega arith)
      (omega arith)
