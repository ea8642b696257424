-- ===== src/Parser/Accepted.antt =====
-- What zerg/parser.py knows of a task graph that `parse_dict` accepts.
use zerg.Common.{
  ℕ, ◌<◌, ◌≡◌, refl, true, false, List, [], ◌∷◌, ◌++◌, String, string_eq, nat_eq, ltb,
  if◌then◌else◌, elem, is_empty, is_empty-append, arith, beq_refl, NoRepeat,
}
use zerg.Common.Dict.{insert, lookup-insert}
use zerg.Validation.{GraphTask}
use zerg.Validation.Dependencies.{TaskInfo, task_info, dependencies_of}
use zerg.Validation.Layered.{rank, Descends, all_layered}
use zerg.Validation.Acyclic.{validate_dependencies_lem, Descends-of_layered}
use zerg.Parser.{
  TaskParser, SchemaError, id_errors, task_errors, unknown_of, unknown_errors, validate_task_graph,
  index, cleared, parsed, parse_dict,
}
use zerg.Parser.Index.{ids, deps_of, deps_of-unknown}

module _ (code_points : String → List ℕ) where
  id_errors-new :
      (t : GraphTask) (seen : List String)
      → is_empty (id_errors code_points t seen) ≡ true
      → elem t.id seen ≡ false
  id_errors-new t seen h = ground arith

  task_errors-NoRepeat :
      (ts : List GraphTask) (seen : List String)
      → is_empty (task_errors code_points ts seen) ≡ true
      → NoRepeat (ids ts) × ((a : String) → elem a (ids ts) ≡ true → elem a seen ≡ false)
  unfolding task_errors
  task_errors-NoRepeat [] seen h = (tt, λ a m. ground arith)
  task_errors-NoRepeat (t ∷ ts) seen h =
      let levels = if ltb t.level 1 then SchemaError.bad_level t.id t.level ∷ [] else [] in
      let later = task_errors code_points ts (t.id ∷ seen) in
      let first = is_empty-append (id_errors code_points t seen) (levels ++ later) in
      let second = is_empty-append levels later in
      let none_here : is_empty (id_errors code_points t seen) ≡ true = ground (arith, first) in
      let none_later : is_empty later ≡ true = ground (arith, first, second) in
      let (u, apart) = task_errors-NoRepeat ts (t.id ∷ seen) none_later in
      let new = id_errors-new t seen none_here in
      (
        (ground (arith, apart t.id, beq_refl t.id), u),
        λ a m. ground (arith, apart a, string_eq.same_iff a t.id),
      )

unknown_of-known :
    (k : String) (known ds : List String) (d : String)
    → is_empty (unknown_of k known ds) ≡ true
    → elem d ds ≡ true
    → elem d known ≡ true
unknown_of-known k known [] d h m = ground arith
unknown_of-known k known (x ∷ ds) d h m =
    ground (arith, unknown_of-known k known ds d, string_eq.same_iff d x)

unknown_errors-known :
    (ts : List GraphTask) (known : List String) (k d : String)
    → is_empty (unknown_errors ts known) ≡ true
    → elem d (deps_of ts k) ≡ true
    → elem d known ≡ true
unfolding unknown_errors
unknown_errors-known [] known k d h m = ground arith
unknown_errors-known (t ∷ ts) known k d h m = ground (
  arith,
  is_empty-append (unknown_of t.id known t.dependencies) (unknown_errors ts known),
  unknown_of-known t.id known t.dependencies d,
  unknown_errors-known ts known k d,
)

-- On distinct IDs the two ways to find the dependencies of a task agree.
dependencies_of-task_info :
    (ts : List GraphTask) (info : TaskInfo) (k : String)
    → NoRepeat (ids ts)
    → dependencies_of (task_info ts info) k
      ≡ (if elem k (ids ts) then deps_of ts k else dependencies_of info k)
unfolding task_info dependencies_of
dependencies_of-task_info [] info k u = refl
dependencies_of-task_info (t ∷ ts) info k (fresh, u) = ground (
  arith,
  dependencies_of-task_info ts (insert t.id t info) k u,
  lookup-insert t.id k t info,
  string_eq.same_iff t.id k,
  string_eq.same_iff k t.id,
)

-- IDs are distinct, dependencies are known, and each is below its task.
pub record IsAccepted (ts : List GraphTask) : Type 0 where
  pub distinct : NoRepeat (ids ts)
  pub known : (k d : String) → elem d (deps_of ts k) ≡ true → elem d (ids ts) ≡ true
  pub lower :
      (k d : String)
      → elem d (deps_of ts k) ≡ true
      → rank (task_info ts []) d < rank (task_info ts []) k

lower_of_layered :
    (ts : List GraphTask) (k d : String)
    → NoRepeat (ids ts)
    → all_layered (task_info ts []) ts ≡ true
    → elem d (deps_of ts k) ≡ true
    → rank (task_info ts []) d < rank (task_info ts []) k
unfolding Descends
lower_of_layered ts k d u layered m =
    let known : elem k (ids ts) ≡ true = ground (arith, deps_of-unknown ts k) in
    let same = dependencies_of-task_info ts [] k u in
    Descends-of_layered ts layered k d (ground arith)

-- What `parse_dict` has checked when it returns a parser.
pub parse_dict-IsAccepted :
    (code_points : String → List ℕ) (ts : List GraphTask) (p : TaskParser)
    → parse_dict code_points ts ≡ parsed p
    → (index ts cleared ≡ p) × IsAccepted ts
unfolding parse_dict validate_task_graph
parse_dict-IsAccepted code_points [] p e = absurd (ground arith)
parse_dict-IsAccepted code_points (t ∷ ts) p e =
    let all_ts = t ∷ ts in
    let (found, e', layered) = validate_dependencies_lem all_ts in
    let fields = task_errors code_points all_ts [] in
    let split = is_empty-append fields (unknown_errors all_ts (ids all_ts)) in
    let fields_good : is_empty fields ≡ true = ground arith in
    let known_good : is_empty (unknown_errors all_ts (ids all_ts)) ≡ true = ground arith in
    let levels_good : all_layered (task_info all_ts []) all_ts ≡ true = ground arith in
    let distinct = (task_errors-NoRepeat code_points all_ts [] fields_good).0 in
    (
      ground arith,
      record {
        distinct = distinct;
        known = λ k d m. unknown_errors-known all_ts (ids all_ts) k d known_good m;
        lower = λ k d m. lower_of_layered all_ts k d distinct levels_good m;
      },
    )
