-- ===== src/Gates/Verdict.antt =====
-- What `run_all_gates` of zerg/gates.py answers and keeps.
use zerg.Common.{
  ◌≡◌, refl, sym, ap, ◌∙◌, subst, append_nil, Bool, true, ◌&&◌, Option, none, some, List, [], ◌∷◌,
  ◌++◌, if◌then◌else◌, select, is_empty, is_none, length, take, arith, Bool-cases, inl, inr,
}
use zerg.Gates.{
  QualityGate, GateRunResult, Executor, PluginRegistry, Runner, run_gates, run_plugin_gates,
  judge_plugins, then_plugins, run_all_gates,
}
use zerg.Gates.Reference.{
  cut, covers, none_bad, cut-covers, is_failure, is_plugin_failure, plugin_names, each_gate,
  each_plugin,
}
use zerg.Gates.Rounds.{
  AreKept, run_gates-covers, run_gates_passed, run_gates-AreKept, run_plugin_gates-AreKept,
  run_plugin_gates-length, judge_plugins-covers, judge_plugins_passed, judge_plugins_first,
}

abbrev pub chosen : Bool → List QualityGate → List QualityGate
chosen required_only gates = if required_only then select (λ g. g.required) gates else gates

module _ {W : Type 0} (ex : Executor W) (stop : Bool) where
  -- Results of gates `vs` and of plugins `ps`, from the runner `r` on, which they leave as `r'`.
  pub record AreJudged (gates : List QualityGate) (registry : Option PluginRegistry) (r : Runner W)
      (passed : Bool) (vs ps : List GateRunResult) (r' : Runner W) : Type 0 where
    -- A result for each gate, or up to the first required one that failed if that stops the run.
    pub gates_run : covers stop is_failure gates vs ≡ true
    pub plugins_told : covers stop (is_plugin_failure registry) (plugin_names registry) ps ≡ true
    -- They are what the commands answer, one after the other, and then the plugins, all of which run.
    pub gates_answer : (each_gate ex (take (length vs) gates) r.world).0 ≡ vs
    pub plugins_answer :
        let w = (each_gate ex (take (length vs) gates) r.world).1 in
        let (qs, w') = each_plugin ex (plugin_names registry) w in
        (take (length ps) qs ≡ ps) × (r'.world ≡ w') × (r'.results ≡ r.results ++ vs ++ qs)
    -- The verdict is good exactly when no result of a required gate or plugin is a failure.
    pub judged : passed ≡ (
        none_bad is_failure gates vs
        && none_bad (is_plugin_failure registry) (plugin_names registry) ps)

  -- The results in one list: where those of gates end is read off the list.
  abbrev pub IsJudged :
      List QualityGate
      → Option PluginRegistry
      → Runner W
      → Bool × (List GateRunResult × Runner W)
      → Type 0
  IsJudged gates registry r (passed, (results, r')) =
      let (vs, ps) = cut stop is_failure gates results in AreJudged gates registry r passed vs ps r'

  AreJudged-IsJudged :
      (gates : List QualityGate) (registry : Option PluginRegistry) (r : Runner W) (passed : Bool)
      (vs ps : List GateRunResult) (r' : Runner W)
      → AreJudged gates registry r passed vs ps r'
      → IsJudged gates registry r (passed, (vs ++ ps, r'))
  AreJudged-IsJudged gates registry r passed vs ps r' j =
      subst (λ x. AreJudged gates registry r passed (x.0) (x.1) r')
        (sym (cut-covers is_failure stop gates vs ps j.gates_run)) j

  -- What the plugins answer after the gates, told from the start.
  plugins_after :
      (gates : List GateRunResult × W) (plugins : W → List GateRunResult × W) (r r₁ r₂ : Runner W)
      (vs qs ps : List GateRunResult)
      → AreKept gates r vs r₁
      → AreKept (plugins r₁.world) r₁ qs r₂
      → ps ≡ take (length ps) qs
      → let (all_results, w') = plugins (gates.1) in
        (take (length ps) all_results ≡ ps)
        × (r₂.world ≡ w')
        × (r₂.results ≡ r.results ++ vs ++ all_results)
  plugins_after gates plugins r r₁ r₂ vs qs ps g p first =
      let same : plugins (gates.1) ≡ (qs, r₂.world) =
        ap (λ x. plugins (x.1)) g.answered ∙ p.answered in
      let kept : r₂.results ≡ r.results ++ vs ++ qs = p.kept ∙ ap (λ x. x ++ qs) g.kept in
      rw same (sym first, refl, kept)

  gates_then_plugins :
      (gs : List QualityGate) (registry : Option PluginRegistry) (r : Runner W) (answer : Bool)
      (qs ps : List GateRunResult) (r₂ : Runner W)
      → let (passed, (vs, r₁)) = run_gates ex stop gs r in
        let bad = is_plugin_failure registry in
        let names = plugin_names registry in
        AreKept (each_plugin ex names r₁.world) r₁ qs r₂
        → covers stop bad names ps ≡ true
        → ps ≡ take (length ps) qs
        → answer ≡ (passed && none_bad bad names ps)
        → AreJudged gs registry r answer vs ps r₂
  gates_then_plugins gs registry r answer qs ps r₂ p told first verdict =
      let (passed, (vs, r₁)) = run_gates ex stop gs r in
      let g = run_gates-AreKept ex stop gs r in
      record {
        gates_run = run_gates-covers ex stop gs r;
        plugins_told = told;
        gates_answer = ap (λ x. x.0) g.answered;
        plugins_answer =
            plugins_after (each_gate ex (take (length vs) gs) r.world)
              (each_plugin ex (plugin_names registry)) r r₁ r₂ vs qs ps g p first;
        judged =
            verdict
            ∙ ap (λ b. b && none_bad (is_plugin_failure registry) (plugin_names registry) ps)
                (run_gates_passed ex stop gs r);
      }

  then_plugins-IsJudged :
      (gs : List QualityGate) (registry : Option PluginRegistry) (r : Runner W)
      → IsJudged gs registry r (then_plugins ex stop registry (run_gates ex stop gs r))
  then_plugins-IsJudged gs none r =
      let (passed, (vs, r₁)) = run_gates ex stop gs r in
      subst (λ x. IsJudged gs none r (passed, (x, r₁))) (append_nil vs)
        (AreJudged-IsJudged gs none r passed vs [] r₁ (
          gates_then_plugins gs none r passed [] [] r₁
            (record { answered = refl; kept = sym (append_nil r₁.results) }) refl refl
            (ground arith)))
  then_plugins-IsJudged gs (some reg) r =
      let (passed, (vs, r₁)) = run_gates ex stop gs r in
      let (qs, r₂) = run_plugin_gates ex reg.gates r₁ in
      let (ok, ps) = judge_plugins stop reg qs in
      let many = run_plugin_gates-length ex stop reg.gates r₁ in
      AreJudged-IsJudged gs (some reg) r (passed && ok) vs ps r₂ (
        gates_then_plugins gs (some reg) r (passed && ok) qs ps r₂
          (run_plugin_gates-AreKept ex stop reg.gates r₁)
          (judge_plugins-covers stop reg reg.gates qs many) (judge_plugins_first stop reg qs)
          (ap (λ b. passed && b) (judge_plugins_passed stop reg reg.gates qs many)))

  no_gates-IsJudged :
      (gs : List QualityGate) (registry : Option PluginRegistry) (r : Runner W)
      → (is_empty gs && is_none registry) ≡ true
      → IsJudged gs registry r (true, ([], r))
  no_gates-IsJudged [] none r h = record {
    gates_run = refl;
    plugins_told = refl;
    gates_answer = refl;
    plugins_answer = (refl, refl, sym (append_nil (r.results ++ []) ∙ append_nil r.results));
    judged = refl;
  }
  no_gates-IsJudged [] (some reg) r h = absurd (ground (arith, h))
  no_gates-IsJudged (g ∷ gs) registry r h = absurd (ground (arith, h))

  -- The results of a run of all gates are what the commands of the chosen gates answer one after the
  -- other, for all of them or, if it stops on failure, up to the first required one that fails, and
  -- then what the plugins answer after them, all or up to such a failure; the runner keeps all these
  -- answers; and the verdict is good exactly when no result of a required gate, configured or of a
  -- plugin, is a failure.
  pub run_all_gates-IsJudged :
      (gates : List QualityGate) (required_only : Bool) (registry : Option PluginRegistry)
      (r : Runner W)
      → IsJudged
          (chosen required_only gates)
          registry
          r
          (run_all_gates ex gates stop required_only registry r)
  unfolding run_all_gates
  run_all_gates-IsJudged gates required_only registry r =
      let gs = chosen required_only gates in
      elim (Bool-cases (is_empty gs && is_none registry)) [
        | inl e ↦ rw e (no_gates-IsJudged gs registry r e)
        | inr e ↦ rw e (then_plugins-IsJudged gs registry r)
      ]
