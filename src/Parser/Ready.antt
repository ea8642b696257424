-- ===== src/Parser/Ready.antt =====
-- `get_ready_tasks` of zerg/parser.py on a task graph that `parse_dict` accepts.
use zerg.Common.{
  ℕ, zero, suc, ◌<◌, ◌≡◌, ap, refl, true, List, [], ◌∷◌, String, string_eq, elem, all, is_empty,
  arith, beq_refl, ◌∙◌,
}
use zerg.Common.Dict.{Dict, keys}
use zerg.Validation.{GraphTask}
use zerg.Validation.Dependencies.{task_info}
use zerg.Validation.Layered.{rank}
use zerg.Parser.{
  TaskParser, index, cleared, parsed, parse_dict, get_dependencies, are_dependencies_complete,
  ready_among, get_ready_tasks,
}
use zerg.Parser.Index.{ids, deps_of, lookup-dependencies}
use zerg.Parser.Start.{keys_known}
use zerg.Parser.Accepted.{IsAccepted, parse_dict-IsAccepted}

all_of_each :
    (done ds : List String)
    → ((d : String) → elem d ds ≡ true → elem d done ≡ true)
    → all (λ d. elem d done) ds ≡ true
all_of_each done [] h = refl
all_of_each done (d ∷ ds) h =
    let rest = all_of_each done ds (λ x m. h x (ground arith)) in
    ground (arith, rest, h d, beq_refl d)

-- A task that is not ready is complete or waits.
waits :
    (tasks : Dict String GraphTask) (completed : List String) (p : TaskParser) (k : String)
    → is_empty (ready_among tasks completed [] p) ≡ true
    → elem k (keys tasks) ≡ true
    → are_dependencies_complete k completed p ≡ true
    → elem k completed ≡ true
unfolding ready_among
waits [] completed p k h m c = ground arith
waits ((j, t) ∷ tasks) completed p k h m c =
    ground (arith, waits tasks completed p k, string_eq.same_iff k j)

module _ (ts : List GraphTask) (w : IsAccepted ts) (completed : List String)
    (h : is_empty (get_ready_tasks completed [] (index ts cleared)) ≡ true) where
  complete_if :
      (k : String)
      → elem k (ids ts) ≡ true
      → ((d : String) → elem d (deps_of ts k) ≡ true → elem d completed ≡ true)
      → elem k completed ≡ true
  unfolding get_ready_tasks are_dependencies_complete get_dependencies
  complete_if k m f =
      let p = index ts cleared in
      let found : get_dependencies k p ≡ deps_of ts k =
        ground (arith, lookup-dependencies ts cleared k w.distinct) in
      let there : elem k (keys p.tasks) ≡ true =
        ap (λ ks. elem k ks) ((keys_known ts w.distinct).0) ∙ m in
      waits p.tasks completed p k h there
        (ap (λ ds. all (λ d. elem d completed) ds) found ∙ all_of_each completed (deps_of ts k) f)

  complete_below :
      (n : ℕ) (k : String)
      → rank (task_info ts []) k < n
      → elem k (ids ts) ≡ true
      → elem k completed ≡ true
  complete_below zero k b m = absurd (omega (arith, b))
  complete_below (suc n) k b m =
      complete_if k m (λ d i. complete_below n d (omega (arith, b, w.lower k d i)) (w.known k d i))

-- In a task graph that `parse_dict` accepts, when no task is in progress and none is ready, then
-- every task of the graph is complete: the graph cannot get stuck.
pub get_ready_tasks_progress :
    (code_points : String → List ℕ) (ts : List GraphTask) (p : TaskParser) (completed : List String)
    (k : String)
    → parse_dict code_points ts ≡ parsed p
    → is_empty (get_ready_tasks completed [] p) ≡ true
    → elem k (ids ts) ≡ true
    → elem k completed ≡ true
get_ready_tasks_progress code_points ts p completed k e h m =
    let (same, w) = parse_dict-IsAccepted code_points ts p e in
    let nothing = ap (λ q. is_empty (get_ready_tasks completed [] q)) same ∙ h in
    complete_below ts w completed nothing (suc (rank (task_info ts []) k)) k (omega arith) m
