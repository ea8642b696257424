-- ===== src/Gates/Tests.antt =====
-- Runs of zerg/gates.py.
use zerg.Common.{
  ℕ, suc, ◌≡◌, refl, Bool, true, false, none, some, List, [], ◌∷◌, String, ◌==◌, nat_eq, string_eq,
  if◌then◌else◌, map, arith,
}
use zerg.Common.Int.{pos}
use zerg.Common.Dict.{lookup}
use zerg.Gates.{
  GateResult, QualityGate, GateRunResult, ran, refused, Executor, PluginRegistry, is_gate_required,
  Runner, run_gate, run_gates, judge_plugins, run_plugin_gates, run_all_gates, check_result,
  gate_timeout, get_summary,
}
use zerg.Gates.Verdict.{IsJudged, chosen, run_all_gates-IsJudged}

-- The world counts the commands.
abbrev counting : Executor ℕ
counting = record {
  execute = λ command timeout w. (
    if command == "bad"
        then ran false (pos 1) "" "assert"
        else if command == "slow"
        then ran false (pos 1) "" "timed out"
        else if command == "rm"
        then refused "rm"
        else ran true (pos 0) "" "",
    suc w,
  );
  mentions_timeout = λ s. s == "timed out";
  refusal = λ s. s;
  run_plugin = λ name w. (none, ("boom", suc w));
}

abbrev gate : Bool → String → QualityGate
gate required command = record {
  name = command;
  command = command;
  required = required;
  timeout = 60;
}

abbrev four_gates : List QualityGate
four_gates = gate true "lint" ∷ gate false "rm" ∷ gate true "slow" ∷ gate true "test" ∷ []

abbrev registry : PluginRegistry
registry = record { gates = "scan" ∷ []; gate_metadata = ("scan", some false) ∷ [] }

abbrev fresh_runner : Runner ℕ
fresh_runner = record { world = 0; results = [] }

abbrev verdicts : List GateRunResult → List GateResult
verdicts = map (λ v. v.result)

-- Without a stop all four gates run, and the plugin, whose failure is not required to pass.
runs_all :
    let (passed, (vs, r)) =
      run_all_gates counting four_gates false false (some registry) fresh_runner in
    (passed ≡ false)
    × (verdicts vs
        ≡ GateResult.pass ∷ GateResult.error ∷ GateResult.timeout ∷ GateResult.pass
          ∷ GateResult.error ∷ [])
    × (r.world ≡ 5)
unfolding run_all_gates run_gates run_gate run_plugin_gates judge_plugins is_gate_required lookup
runs_all = (refl, refl, refl)

-- The stop is at the first required gate that fails; the plugins run all the same.
stops_early :
    let (passed, (vs, r)) =
      run_all_gates counting four_gates true true (some registry) fresh_runner in
    (passed ≡ false) × (verdicts vs ≡ GateResult.pass ∷ GateResult.timeout ∷ GateResult.error ∷ [])
unfolding run_all_gates run_gates run_gate run_plugin_gates judge_plugins is_gate_required lookup
stops_early = (refl, refl)

summary_counts :
    get_summary ((run_all_gates counting four_gates false false none fresh_runner).1.1.results)
    ≡ record { total = 4; passed = 2; failures = 0; timeouts = 1; errors = 1; skipped = 0 }
unfolding get_summary run_all_gates run_gates run_gate
summary_counts = refl

abbrev slow_result : GateRunResult
slow_result = (run_gate counting (gate true "slow") fresh_runner).0

raises_timeout : check_result slow_result true ≡ gate_timeout slow_result
unfolding check_result run_gate
raises_timeout = refl

-- Of a gate that passed, a verdict that is not good is not the right one, nor is one on no results.
abbrev lint_only : List QualityGate
lint_only = gate true "lint" ∷ []

lint_refused :
    (vs : List GateRunResult) (r : Runner ℕ)
    → vs ≡ (run_gate counting (gate true "lint") fresh_runner).0 ∷ []
    → ¬ IsJudged counting false lint_only none fresh_runner (false, (vs, r))
unfolding run_gate
lint_refused vs r e j = ground (arith, e, j.judged)

nothing_refused :
    (passed : Bool) (r : Runner ℕ)
    → ¬ IsJudged counting false lint_only none fresh_runner (passed, ([], r))
nothing_refused passed r j = ground (arith, j.gates_run)

run_all_gates-IsJudged_example :
    IsJudged counting true
      (chosen true four_gates)
      (some registry)
      fresh_runner
      (run_all_gates counting four_gates true true (some registry) fresh_runner)
run_all_gates-IsJudged_example =
    run_all_gates-IsJudged counting true four_gates true (some registry) fresh_runner
