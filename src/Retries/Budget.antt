-- ===== src/Retries/Budget.antt =====
-- How often a task is retried, through all calls of zerg/task_retry_manager.py and of workers.
use zerg.Common.{
  ℕ, ◌+◌, ◌≤◌, ◌≡◌, Bool, true, some, List, [], ◌∷◌, String, string_eq, ltb, arith, Bool-cases,
  Option-cases, inl, inr,
}
use zerg.Common.Int.{pos_part}
use zerg.State.{StaleTask, Tasks}
use zerg.State.Claims.{entry-claim_task, entry-release_task, entry-set_task_status}
use zerg.State.Exclusive.{Op, claim, release, set_status, apply}
use zerg.State.Retry.{get_retry_count}
use zerg.Backoff.{calculate_delay}
use zerg.Retries.{
  Config, Outside, Manager, after, put_tasks, schedule, give_up, handle_task_failure, fail_stale,
  fail_all_stale, check_stale_tasks, requeue, requeue_all, check_retry_ready_tasks, retry_task,
  retry_each, retry_all_failed,
}
use zerg.Retries.Entries.{entry-schedule, entry-give_up, entry-requeue, entry-retry_task}

abbrev pub WithinBudget : Config → Tasks → Type 0
WithinBudget config tasks = (k : String) → get_retry_count k tasks ≤ config.max_retry_attempts

module _ (config : Config) where
  schedule-WithinBudget :
      (o : Outside) (k error : String) (w delay : ℕ) (m : Manager)
      → ltb (get_retry_count k m.tasks) config.max_retry_attempts ≡ true
      → WithinBudget config m.tasks
      → WithinBudget config (schedule o k w error delay m).tasks
  unfolding get_retry_count
  schedule-WithinBudget o k error w delay m h b j =
      ground (arith, entry-schedule o k j error w delay m, b j)

  give_up-WithinBudget :
      (o : Outside) (k error : String) (w : ℕ) (m : Manager)
      → WithinBudget config m.tasks
      → WithinBudget config (give_up o k w error m).tasks
  unfolding get_retry_count
  give_up-WithinBudget o k error w m b j =
      ground (arith, entry-give_up o k j error w m, b j, string_eq.same_iff k j)

  handle_task_failure-WithinBudget :
      (o : Outside) (k error : String) (w : ℕ) (answer : Bool) (m m' : Manager)
      → handle_task_failure config o k w error m ≡ some (answer, m')
      → WithinBudget config m.tasks
      → WithinBudget config m'.tasks
  unfolding handle_task_failure
  handle_task_failure-WithinBudget o k error w answer m m' e b j =
      elim (Bool-cases (ltb (get_retry_count k m.tasks) config.max_retry_attempts)) [
        | inl more ↦
            let delay =
              calculate_delay o.uniform config.ticks (get_retry_count k m.tasks + 1)
                config.backoff_strategy config.backoff_base_seconds config.backoff_max_seconds in
            elim (Option-cases delay) [
              | inl unknown ↦ absurd (ground arith)
              | inr (d, known) ↦
                  ground (arith, schedule-WithinBudget o k error w (pos_part d) m more b j)
            ]
        | inr over ↦ ground (arith, give_up-WithinBudget o k error w m b j)
      ]

  requeue-WithinBudget :
      (clock : ℕ → ℕ) (k : String) (m : Manager)
      → WithinBudget config m.tasks
      → WithinBudget config (requeue clock k m).tasks
  unfolding get_retry_count
  requeue-WithinBudget clock k m b j =
      ground (arith, entry-requeue clock k j m, b j, string_eq.same_iff k j)

  requeue_all-WithinBudget :
      (clock : ℕ → ℕ) (ks : List String) (m : Manager)
      → WithinBudget config m.tasks
      → WithinBudget config (requeue_all clock ks m).tasks
  unfolding requeue_all
  requeue_all-WithinBudget clock [] m b = b
  requeue_all-WithinBudget clock (k ∷ ks) m b =
      requeue_all-WithinBudget (after 2 clock) ks (requeue clock k m)
        (requeue-WithinBudget clock k m b)

  retry_task-WithinBudget :
      (clock : ℕ → ℕ) (k : String) (m : Manager)
      → WithinBudget config m.tasks
      → WithinBudget config (retry_task clock k m).1.tasks
  unfolding get_retry_count
  retry_task-WithinBudget clock k m b j = ground (arith, entry-retry_task clock k j m, b j)

  retry_each-WithinBudget :
      (clock : ℕ → ℕ) (ks : List String) (m : Manager)
      → WithinBudget config m.tasks
      → WithinBudget config (retry_each clock ks m).1.tasks
  unfolding retry_each
  retry_each-WithinBudget clock [] m b = b
  retry_each-WithinBudget clock (k ∷ ks) m b =
      retry_each-WithinBudget (after 2 clock) ks (retry_task clock k m).1
        (retry_task-WithinBudget clock k m b)

  fail_stale-WithinBudget :
      (o : Outside) (timeout : ℕ) (t : StaleTask) (answer : Bool) (m m' : Manager)
      → fail_stale config o timeout t m ≡ some (answer, m')
      → WithinBudget config m.tasks
      → WithinBudget config m'.tasks
  unfolding fail_stale
  fail_stale-WithinBudget o timeout t answer m m' e b =
      handle_task_failure-WithinBudget o t.task_id _ _ answer _ m' e b

  fail_all_stale-WithinBudget :
      (o : Outside) (timeout : ℕ) (ts : List StaleTask) (ks : List String) (m m' : Manager)
      → fail_all_stale config o timeout ts m ≡ some (ks, m')
      → WithinBudget config m.tasks
      → WithinBudget config m'.tasks
  unfolding fail_all_stale
  fail_all_stale-WithinBudget o timeout [] ks m m' e b j = ground (arith, b j)
  fail_all_stale-WithinBudget o timeout (t ∷ ts) ks m m' e b j =
      elim (Option-cases (fail_stale config o timeout t m)) [
        | inl raised ↦ absurd (ground arith)
        | inr ((answer, m₁), first) ↦
            let b₁ = fail_stale-WithinBudget o timeout t answer m m₁ first b in
            let later : Outside = record o { clock = after 4 o.clock } in
            elim (Option-cases (fail_all_stale config later timeout ts m₁)) [
              | inl raised ↦ absurd (ground arith)
              | inr ((rest, m₂), second) ↦
                  let b₂ = fail_all_stale-WithinBudget later timeout ts rest m₁ m₂ second b₁ in
                  ground (arith, b₂ j)
            ]
      ]

  apply-WithinBudget :
      (op : Op) (tasks : Tasks) → WithinBudget config tasks → WithinBudget config (apply op tasks).1
  unfolding apply get_retry_count
  apply-WithinBudget (claim k w l d now now') tasks b j =
      ground (arith, entry-claim_task k j w now now' l d tasks, b j, string_eq.same_iff k j)
  apply-WithinBudget (release k w) tasks b j =
      ground (arith, entry-release_task k j w tasks, b j, string_eq.same_iff k j)
  apply-WithinBudget (set_status k s w e now now') tasks b j =
      ground (arith, entry-set_task_status k j s w e now now' tasks, b j, string_eq.same_iff k j)

  -- A call of the retry manager that returns, or one of a worker on the shared tasks.
  pub data Step (m : Manager) : Manager → Type 0 where
    failure :
        (o : Outside) (k error : String) (w : ℕ) (answer : Bool) (m' : Manager)
        → handle_task_failure config o k w error m ≡ some (answer, m')
        → Step m m'
    stale :
        (o : Outside) (timeout : ℕ) (ks : List String) (m' : Manager)
        → check_stale_tasks config o timeout m ≡ some (ks, m')
        → Step m m'
    ready : (clock : ℕ → ℕ) → Step m (check_retry_ready_tasks clock m)
    retry : (clock : ℕ → ℕ) (k : String) → Step m (retry_task clock k m).1
    retry_all : (clock : ℕ → ℕ) → Step m (retry_all_failed clock m).1
    worker : (op : Op) → Step m (put_tasks (apply op m.tasks).1 m)

  pub data Reach (m : Manager) : Manager → Type 0 where
    start : Reach m m
    next : {m' m'' : Manager} → Reach m m' → Step m' m'' → Reach m m''

  Step-WithinBudget :
      {m m' : Manager} → Step m m' → WithinBudget config m.tasks → WithinBudget config m'.tasks
  unfolding check_stale_tasks check_retry_ready_tasks retry_all_failed
  Step-WithinBudget (failure o k error w answer m' e) b =
      handle_task_failure-WithinBudget o k error w answer _ m' e b
  Step-WithinBudget (stale o timeout ks m' e) b =
      fail_all_stale-WithinBudget _ timeout _ ks _ m' e b
  Step-WithinBudget (ready clock) b = requeue_all-WithinBudget _ _ _ b
  Step-WithinBudget (retry clock k) b = retry_task-WithinBudget clock k _ b
  Step-WithinBudget (retry_all clock) b = retry_each-WithinBudget clock _ _ b
  Step-WithinBudget (worker op) b = apply-WithinBudget op _ b

  -- Whatever the retry manager and the workers call, the retry count of a task never passes the
  -- limit, if none does at first.
  pub retry_budget :
      {m m' : Manager} → Reach m m' → WithinBudget config m.tasks → WithinBudget config m'.tasks
  retry_budget start b = b
  retry_budget (next r s) b = Step-WithinBudget s (retry_budget r b)
