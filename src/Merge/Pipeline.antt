-- ===== src/Merge/Pipeline.antt =====
-- GatePipeline of zerg/level_coordinator.py, and how zerg/merge.py runs gates with it or without it.
use zerg.Common.{
  ℕ, ◌+◌, Bool, true, not, Option, none, some, List, [], ◌∷◌, String, ◌==◌, nat_eq, string_eq, ltb,
  if◌then◌else◌, get_or, select, all,
}
use zerg.Common.Int.{ℤ, pos}
use zerg.Gates.{
  GateResult, QualityGate, GateRunResult, Executor, Runner, same_result, run_gate, run_all_gates,
}
use zerg.Git.Calls.{other, Answer, done, raised, Act, pure, ◌>>=◌, ◌>>◌}

-- An artifact, read from its file; a missing key is none.
pub record Cached : Type 0 where
  pub timestamp : Option ℕ
  pub name : Option String
  pub result : Option String
  pub command : Option String
  pub exit_code : Option ℤ
  pub stdout : Option String
  pub stderr : Option String

-- The artifacts' files: making the folder of a level, which answers a message where it raises;
-- reading an artifact, none where it is missing or unreadable; writing it; `time.time()`; and
-- `text[:500]`.
pub record Artifacts (W : Type 0) : Type 0 where
  pub make_dir : ℕ → W → Option String × W
  pub load : ℕ → String → W → Option Cached
  pub save : ℕ → String → Cached → W → W
  pub now : W → ℕ
  pub first_500 : String → String

abbrev pub result_value : GateResult → String
result_value GateResult.pass = "pass"
result_value GateResult.fail = "fail"
result_value GateResult.skip = "skip"
result_value GateResult.timeout = "timeout"
result_value GateResult.error = "error"

-- `GateResult(text)`, with ERROR for a ValueError.
abbrev pub result_of : String → GateResult
result_of s =
    if s == "pass"
    then GateResult.pass
    else if s == "fail"
    then GateResult.fail
    else if s == "skip"
    then GateResult.skip
    else if s == "timeout"
    then GateResult.timeout
    else GateResult.error

-- `_is_stale`
abbrev pub is_stale : ℕ → ℕ → Cached → Bool
is_stale threshold now c = ltb (threshold + get_or c.timestamp 0) now

-- `_restore_result`
abbrev pub restore_result : Cached → QualityGate → GateRunResult
restore_result c g = record {
  gate_name = get_or c.name g.name;
  result = result_of (get_or c.result "unknown");
  command = get_or c.command g.command;
  exit_code = get_or c.exit_code (pos 0);
  stdout = get_or c.stdout "";
  stderr = get_or c.stderr "";
}

-- What `_store_result` writes.
abbrev pub cached_result : (String → String) → ℕ → GateRunResult → Cached
cached_result first_500 now v = record {
  timestamp = some now;
  name = some v.gate_name;
  result = some (result_value v.result);
  command = some v.command;
  exit_code = some v.exit_code;
  stdout = some (first_500 v.stdout);
  stderr = some (first_500 v.stderr);
}

-- `cached is not None and not self._is_stale(cached)`
abbrev pub fresh : ℕ → ℕ → Option Cached → Option Cached
fresh threshold now none = none
fresh threshold now (some c) = if is_stale threshold now c then none else some c

-- The runner, and the local variables of `full_merge_flow` that its handlers read.
pub record Site (W : Type 0) : Type 0 where
  pub runner : Runner W
  pub staging_branch : Option String
  pub gate_results : List GateRunResult

-- The pipeline, where there is one, by its threshold of staleness.
abbrev pub GatePipeline : Type 0
GatePipeline = Option ℕ

-- A call that changes the world alone.
abbrev pub on_world : {W A : Type 0} → Act W A → Act (Site W) A
on_world m s =
    let (a, w) = m s.runner.world in (a, record s { runner = record s.runner { world = w } })

abbrev pub with_runner : {W A : Type 0} → (Runner W → A × Runner W) → Act (Site W) A
with_runner f s = let (a, r) = f s.runner in (done a, record s { runner = r })

-- Making the folder, which may raise.
abbrev pub made : {W : Type 0} → Option String × W → Answer (Unit {0}) × W
made (none, w) = (done tt, w)
made (some m, w) = (raised (other m), w)

-- `all(r.result == GateResult.PASS for r in results)`
abbrev pub passed_all : List GateRunResult → Bool
passed_all = all (λ v. same_result v.result GateResult.pass)

-- `required_gates` of the two calls that run gates.
abbrev pub required_gates : Bool → List QualityGate → List QualityGate
required_gates skip_tests gates =
    select (λ g. g.required)
      (if skip_tests then select (λ g. not (g.name == "test")) gates else gates)

module _ {W : Type 0} (ex : Executor W) (art : Artifacts W) where
  -- The rest of the loop body for a gate with no fresh result.
  unfoldable pub run_and_store : ℕ → QualityGate → Runner W → GateRunResult × Runner W
  run_and_store level g r =
      let (v, r') = run_gate ex g r in
      let c = cached_result art.first_500 (art.now r'.world) v in
      (v, record r' { world = art.save level g.name c r'.world })

  abbrev pub result_for : ℕ → QualityGate → Option Cached → Runner W → GateRunResult × Runner W
  result_for level g (some c) r = (restore_result c g, r)
  result_for level g none r = run_and_store level g r

  -- The loop of `run_gates_for_level`.
  unfoldable pub gates_of_level :
      ℕ → ℕ → List QualityGate → Runner W → List GateRunResult × Runner W
  gates_of_level threshold level [] r = ([], r)
  gates_of_level threshold level (g ∷ gs) r =
      let cached = fresh threshold (art.now r.world) (art.load level g.name r.world) in
      let (v, r') = result_for level g cached r in
      let (vs, r'') = gates_of_level threshold level gs r' in (v ∷ vs, r'')

  unfoldable pub run_gates_for_level : ℕ → ℕ → List QualityGate → Act (Site W) (List GateRunResult)
  run_gates_for_level threshold level gates = do
    on_world (λ w. made (art.make_dir level w))
    with_runner (gates_of_level threshold level gates)

  -- `run_pre_merge_gates` at the level, `run_post_merge_gates` at the level + 1000. The runner of
  -- the coordinator has no plugins.
  unfoldable pub run_gates_at :
      GatePipeline → ℕ → Bool → List QualityGate → Act (Site W) (Bool × List GateRunResult)
  run_gates_at (some threshold) level skip_tests gates = do
    results ← run_gates_for_level threshold level (required_gates skip_tests gates)
    pure (passed_all results, results)
  run_gates_at none level skip_tests gates = with_runner λ r.
      let (passed, (vs, r')) =
        run_all_gates ex (required_gates skip_tests gates) true true none r in
      ((passed, vs), r')

  abbrev pub run_pre_merge_gates :
      GatePipeline → ℕ → Bool → List QualityGate → Act (Site W) (Bool × List GateRunResult)
  run_pre_merge_gates pipeline level = run_gates_at pipeline level

  abbrev pub run_post_merge_gates :
      GatePipeline → ℕ → Bool → List QualityGate → Act (Site W) (Bool × List GateRunResult)
  run_post_merge_gates pipeline level = run_gates_at pipeline (level + 1000)
