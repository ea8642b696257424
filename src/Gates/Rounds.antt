-- ===== src/Gates/Rounds.antt =====
-- The loops of `run_all_gates` of zerg/gates.py over the gates and the plugins, against gates and
-- plugins that run one after the other.
use zerg.Common.{
  ◌≡◌, refl, sym, ap, ◌∙◌, append_nil, append_one, Bool, true, not, ◌||◌, some, List, [], ◌∷◌, ◌++◌,
  String, nat_eq, string_eq, get_or, length, take, arith, Bool-cases, inl, inr,
}
use zerg.Gates.{
  QualityGate, GateRunResult, is_ok, Executor, PluginRegistry, Runner, run_gate, run_gates,
  run_plugin_gates, judge_plugins, plugin_error,
}
use zerg.Gates.Reference.{covers, none_bad, is_failure, is_plugin_failure, each_gate, each_plugin}

module _ {W : Type 0} where
  -- `vs` and `r'` are what gates or plugins answer and leave, whose plain run is `plain`; the runner
  -- keeps `vs` behind the results that it had.
  pub record AreKept (plain : List GateRunResult × W) (r : Runner W) (vs : List GateRunResult)
      (r' : Runner W) : Type 0 where
    pub answered : plain ≡ (vs, r'.world)
    pub kept : r'.results ≡ r.results ++ vs

  AreKept-after :
      (v : GateRunResult) (w : W) (r : Runner W) (plain : List GateRunResult × W)
      (vs : List GateRunResult) (r' : Runner W)
      → AreKept plain (record { world = w; results = r.results ++ v ∷ [] }) vs r'
      → AreKept (v ∷ plain.0, plain.1) r (v ∷ vs) r'
  AreKept-after v w r plain vs r' j = record {
    answered = ap (λ x. (v ∷ x.0, x.1)) j.answered;
    kept = j.kept ∙ append_one r.results v vs;
  }

module _ {W : Type 0} (ex : Executor W) (stop : Bool) where
  pub run_gates-covers :
      (gs : List QualityGate) (r : Runner W)
      → let (passed, (vs, r')) = run_gates ex stop gs r in covers stop is_failure gs vs ≡ true
  unfolding run_gates
  run_gates-covers [] r = refl
  run_gates-covers (g ∷ gs) r = ground (arith, run_gates-covers gs (run_gate ex g r).1)

  pub run_gates_passed :
      (gs : List QualityGate) (r : Runner W)
      → let (passed, (vs, r')) = run_gates ex stop gs r in passed ≡ none_bad is_failure gs vs
  unfolding run_gates
  run_gates_passed [] r = refl
  run_gates_passed (g ∷ gs) r = ground (arith, run_gates_passed gs (run_gate ex g r).1)

  pub run_gates-AreKept :
      (gs : List QualityGate) (r : Runner W)
      → let (passed, (vs, r')) = run_gates ex stop gs r in
        AreKept (each_gate ex (take (length vs) gs) r.world) r vs r'
  unfolding run_gates run_gate
  run_gates-AreKept [] r = record { answered = refl; kept = sym (append_nil r.results) }
  run_gates-AreKept (g ∷ gs) r =
      let (v, r') = run_gate ex g r in
      let (passed, (vs, r'')) = run_gates ex stop gs r' in
      let plain = each_gate ex (take (length vs) gs) r'.world in
      let go_on = AreKept-after v r'.world r plain vs r'' (run_gates-AreKept gs r') in
      elim (Bool-cases (is_ok v.result || not g.required)) [
        | inl e ↦ rw e go_on
        | inr e ↦ elim (Bool-cases stop) [
          | inl s ↦ rw (e, s) (record { answered = refl; kept = refl })
          | inr s ↦ rw (e, s) go_on
        ]
      ]

  pub run_plugin_gates-AreKept :
      (names : List String) (r : Runner W)
      → let (ps, r') = run_plugin_gates ex names r in AreKept (each_plugin ex names r.world) r ps r'
  unfolding run_plugin_gates
  run_plugin_gates-AreKept [] r = record { answered = refl; kept = sym (append_nil r.results) }
  run_plugin_gates-AreKept (name ∷ names) r =
      let (o, (m, w)) = ex.run_plugin name r.world in
      let v = get_or o (plugin_error name m) in
      let next : Runner W = record { world = w; results = r.results ++ v ∷ [] } in
      let (ps, r') = run_plugin_gates ex names next in
      AreKept-after v w r (each_plugin ex names w) ps r' (run_plugin_gates-AreKept names next)

  pub run_plugin_gates-length :
      (names : List String) (r : Runner W) → length ((run_plugin_gates ex names r).0) ≡ length names
  unfolding run_plugin_gates
  run_plugin_gates-length [] r = refl
  run_plugin_gates-length (name ∷ names) r =
      let (o, (m, w)) = ex.run_plugin name r.world in
      let v = get_or o (plugin_error name m) in
      omega
        (arith, run_plugin_gates-length names (record { world = w; results = r.results ++ v ∷ [] }))

module _ (stop : Bool) (reg : PluginRegistry) where
  abbrev plugin_bad : String → GateRunResult → Bool
  plugin_bad = is_plugin_failure (some reg)

  pub judge_plugins-covers :
      (names : List String) (vs : List GateRunResult)
      → length vs ≡ length names
      → let (passed, rest) = judge_plugins stop reg vs in covers stop plugin_bad names rest ≡ true
  unfolding judge_plugins
  judge_plugins-covers [] [] h = refl
  judge_plugins-covers [] (v ∷ vs) h = absurd (ground (arith, h))
  judge_plugins-covers (name ∷ names) [] h = absurd (ground (arith, h))
  judge_plugins-covers (name ∷ names) (v ∷ vs) h =
      ground (arith, judge_plugins-covers names vs (omega (arith, h)))

  pub judge_plugins_passed :
      (names : List String) (vs : List GateRunResult)
      → length vs ≡ length names
      → let (passed, rest) = judge_plugins stop reg vs in passed ≡ none_bad plugin_bad names rest
  unfolding judge_plugins
  judge_plugins_passed [] [] h = refl
  judge_plugins_passed [] (v ∷ vs) h = absurd (ground (arith, h))
  judge_plugins_passed (name ∷ names) [] h = absurd (ground (arith, h))
  judge_plugins_passed (name ∷ names) (v ∷ vs) h =
      ground (arith, judge_plugins_passed names vs (omega (arith, h)))

  pub judge_plugins_first :
      (vs : List GateRunResult)
      → let (passed, rest) = judge_plugins stop reg vs in rest ≡ take (length rest) vs
  unfolding judge_plugins
  judge_plugins_first [] = refl
  judge_plugins_first (v ∷ vs) = ground (arith, judge_plugins_first vs)
