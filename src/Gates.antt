-- ===== src/Gates.antt =====
-- zerg/gates.py, with what it calls of zerg/plugins.py. `W` is the outside world, which a command or
-- a plugin reads and changes. Durations and the text of log lines are left out.
pub mod Reference
pub mod Rounds
pub mod Verdict
mod Tests
use zerg.Common.{
  ℕ, zero, suc, ◌+◌, Bool, true, false, not, ◌&&◌, ◌||◌, Option, none, some, List, [], ◌∷◌, ◌++◌,
  String, ◌==◌, nat_eq, string_eq, if◌then◌else◌, get_or, select, is_empty, is_none, count_if,
  length,
}
use zerg.Common.Int.{ℤ, pos, negsuc}
use zerg.Common.Dict.{Dict, lookup, keys}

pub data GateResult : Type 0 where
  pass fail skip timeout error : GateResult

pub record QualityGate : Type 0 where
  pub name : String
  pub command : String
  pub required : Bool
  pub timeout : ℕ

pub record GateRunResult : Type 0 where
  pub gate_name : String
  pub result : GateResult
  pub command : String
  pub exit_code : ℤ
  pub stdout : String
  pub stderr : String

-- `result in (GateResult.PASS, GateResult.SKIP)`
abbrev pub is_ok : GateResult → Bool
is_ok GateResult.pass = true
is_ok GateResult.skip = true
is_ok GateResult.fail = false
is_ok GateResult.timeout = false
is_ok GateResult.error = false

-- What running a command answers, its exceptions included.
pub data CommandOutcome : Type 0 where
  ran : (success : Bool) (exit_code : ℤ) (stdout stderr : String) → CommandOutcome
  refused : (message : String) → CommandOutcome
  broke : (message : String) → CommandOutcome

-- Running a command, `"timed out" in stderr.lower()`, the words before the message of a refused
-- command, and running a plugin gate, which answers none where it raises, with a message.
pub record Executor (W : Type 0) : Type 0 where
  pub execute : String → ℕ → W → CommandOutcome × W
  pub mentions_timeout : String → Bool
  pub refusal : String → String
  pub run_plugin : String → W → Option GateRunResult × (String × W)

-- The plugin registry: the names of its gates, and whether one is required.
pub record PluginRegistry : Type 0 where
  pub gates : List String
  pub gate_metadata : Dict String (Option Bool)

-- Required where nothing is said.
unfoldable pub is_gate_required : String → PluginRegistry → Bool
is_gate_required name r = get_or (get_or (lookup name r.gate_metadata) none) true

abbrev pub gate_run : QualityGate → GateResult → ℤ → String → String → GateRunResult
gate_run g result exit_code out err = record {
  gate_name = g.name;
  result = result;
  command = g.command;
  exit_code = exit_code;
  stdout = out;
  stderr = err;
}

abbrev pub plugin_error : String → String → GateRunResult
plugin_error name err = record {
  gate_name = name;
  result = GateResult.error;
  command = "";
  exit_code = negsuc 0;
  stdout = "";
  stderr = err;
}

-- The world, and the results that the runner keeps.
pub record Runner (W : Type 0) : Type 0 where
  pub world : W
  pub results : List GateRunResult

-- The loop over the results of the plugin gates.
unfoldable pub judge_plugins :
    Bool → PluginRegistry → List GateRunResult → Bool × List GateRunResult
judge_plugins stop_on_failure reg [] = (true, [])
judge_plugins stop_on_failure reg (v ∷ vs) =
    let (passed, rest) = judge_plugins stop_on_failure reg vs in
    if is_ok v.result || not (is_gate_required v.gate_name reg)
    then (passed, v ∷ rest)
    else if stop_on_failure
    then (false, v ∷ [])
    else (false, v ∷ rest)

module _ {W : Type 0} (ex : Executor W) where
  abbrev pub verdict : CommandOutcome → QualityGate → GateRunResult
  verdict (ran success exit_code out err) g =
      gate_run g
        (if success
          then GateResult.pass
          else if ex.mentions_timeout err
          then GateResult.timeout
          else GateResult.fail)
        exit_code out err
  verdict (refused m) g = gate_run g GateResult.error (negsuc 0) "" (ex.refusal m)
  verdict (broke m) g = gate_run g GateResult.error (negsuc 0) "" m

  unfoldable pub run_gate : QualityGate → Runner W → GateRunResult × Runner W
  run_gate g r =
      let (o, w) = ex.execute g.command g.timeout r.world in
      let v = verdict o g in (v, record { world = w; results = r.results ++ v ∷ [] })

  -- The loop over the configured gates: whether all required ones passed, and the results.
  unfoldable pub run_gates :
      Bool → List QualityGate → Runner W → Bool × (List GateRunResult × Runner W)
  run_gates stop_on_failure [] r = (true, ([], r))
  run_gates stop_on_failure (g ∷ gs) r =
      let (v, r') = run_gate g r in
      let (passed, (vs, r'')) = run_gates stop_on_failure gs r' in
      if is_ok v.result || not g.required
      then (passed, (v ∷ vs, r''))
      else if stop_on_failure
      then (false, (v ∷ [], r'))
      else (false, (v ∷ vs, r''))

  unfoldable pub run_plugin_gates : List String → Runner W → List GateRunResult × Runner W
  run_plugin_gates [] r = ([], r)
  run_plugin_gates (name ∷ names) r =
      let (o, m) = ex.run_plugin name r.world in
      let v = get_or o (plugin_error name (m.0)) in
      let (vs, r') =
        run_plugin_gates names (record { world = m.1; results = r.results ++ v ∷ [] }) in
      (v ∷ vs, r')

  abbrev pub then_plugins :
      Bool
      → Option PluginRegistry
      → Bool × (List GateRunResult × Runner W)
      → Bool × (List GateRunResult × Runner W)
  then_plugins stop_on_failure none answer = answer
  then_plugins stop_on_failure (some reg) (passed, (vs, r)) =
      let (ps, r') = run_plugin_gates reg.gates r in
      let (ok, rest) = judge_plugins stop_on_failure reg ps in (passed && ok, (vs ++ rest, r'))

  unfoldable pub run_all_gates :
      List QualityGate
      → Bool
      → Bool
      → Option PluginRegistry
      → Runner W
      → Bool × (List GateRunResult × Runner W)
  run_all_gates gates stop_on_failure required_only registry r =
      let chosen = if required_only then select (λ g. g.required) gates else gates in
      let answer = then_plugins stop_on_failure registry (run_gates stop_on_failure chosen r) in
      if is_empty chosen && is_none registry then (true, ([], r)) else answer

-- `clear_results`
unfoldable pub clear_results : {W : Type 0} → Runner W → Runner W
clear_results r = record r { results = [] }

pub data Checked : Type 0 where
  answers : Bool → Checked
  gate_timeout : GateRunResult → Checked
  gate_failure : GateRunResult → Checked

-- `check_result`, with its exceptions.
unfoldable pub check_result : GateRunResult → Bool → Checked
check_result v raise_on_failure =
    if is_ok v.result
    then answers true
    else if not raise_on_failure
    then answers false
    else elim v.result [ GateResult.timeout ↦ gate_timeout v | _ ↦ gate_failure v ]

abbrev pub same_result : GateResult → GateResult → Bool
same_result GateResult.pass GateResult.pass = true
same_result GateResult.fail GateResult.fail = true
same_result GateResult.skip GateResult.skip = true
same_result GateResult.timeout GateResult.timeout = true
same_result GateResult.error GateResult.error = true
same_result a b = false

pub record GateSummary : Type 0 where
  pub total : ℕ
  pub passed : ℕ
  pub failures : ℕ
  pub timeouts : ℕ
  pub errors : ℕ
  pub skipped : ℕ

abbrev pub count_result : GateResult → List GateRunResult → ℕ
count_result k = count_if (λ v. same_result v.result k)

unfoldable pub get_summary : List GateRunResult → GateSummary
get_summary vs = record {
  total = length vs;
  passed = count_result GateResult.pass vs;
  failures = count_result GateResult.fail vs;
  timeouts = count_result GateResult.timeout vs;
  errors = count_result GateResult.error vs;
  skipped = count_result GateResult.skip vs;
}
