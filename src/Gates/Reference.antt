-- ===== src/Gates/Reference.antt =====
-- What a run of the gates of zerg/gates.py is measured by: the answers of gates and plugins that run
-- one after the other, and how a list of results splits at a stop.
use zerg.Common.{
  ◌≡◌, refl, Bool, true, false, not, ◌&&◌, Option, none, some, List, [], ◌∷◌, ◌++◌, String,
  string_eq, if◌then◌else◌, get_or, is_empty, length, arith,
}
use zerg.Gates.{
  QualityGate, GateRunResult, is_ok, Executor, PluginRegistry, is_gate_required, plugin_error,
  verdict,
}

module _ {ℓ κ} {A : Type ℓ} {B : Type κ} (stop : Bool) (bad : A → B → Bool) where
  -- The results of the tests `ts` and those after them: with a stop a bad result is the last one of
  -- the tests.
  abbrev pub cut : List A → List B → List B × List B
  cut [] vs = ([], vs)
  cut (a ∷ ts) [] = ([], [])
  cut (a ∷ ts) (v ∷ vs) =
      let (xs, ys) = cut ts vs in if stop && bad a v then (v ∷ [], vs) else (v ∷ xs, ys)

  -- One result for each test, or, with a stop, for each up to the first that is bad.
  abbrev pub covers : List A → List B → Bool
  covers [] vs = is_empty vs
  covers (a ∷ ts) [] = false
  covers (a ∷ ts) (v ∷ vs) =
      let rest = covers ts vs in if stop && bad a v then is_empty vs else rest

module _ {ℓ κ} {A : Type ℓ} {B : Type κ} (bad : A → B → Bool) where
  -- No result that is there is bad.
  abbrev pub none_bad : List A → List B → Bool
  none_bad [] vs = true
  none_bad (a ∷ ts) [] = true
  none_bad (a ∷ ts) (v ∷ vs) = not (bad a v) && none_bad ts vs

  pub cut-covers :
      (stop : Bool) (ts : List A) (vs ws : List B)
      → covers stop bad ts vs ≡ true
      → cut stop bad ts (vs ++ ws) ≡ (vs, ws)
  cut-covers stop [] [] ws h = refl
  cut-covers stop [] (v ∷ vs) ws h = absurd (ground (arith, h))
  cut-covers stop (a ∷ ts) [] ws h = absurd (ground (arith, h))
  cut-covers stop (a ∷ ts) (v ∷ []) ws h = ground (arith, h, cut-covers stop ts [] ws)
  cut-covers stop (a ∷ ts) (v ∷ u ∷ vs) ws h = ground (arith, h, cut-covers stop ts (u ∷ vs) ws)

  -- Where no result is bad, no test was left out.
  pub covers-length :
      (stop : Bool) (ts : List A) (vs : List B)
      → covers stop bad ts vs ≡ true
      → none_bad ts vs ≡ true
      → length vs ≡ length ts
  covers-length stop [] [] h e = refl
  covers-length stop [] (v ∷ vs) h e = absurd (ground (arith, h))
  covers-length stop (a ∷ ts) [] h e = absurd (ground (arith, h))
  covers-length stop (a ∷ ts) (v ∷ vs) h e = ground (arith, h, e, covers-length stop ts vs)

abbrev pub is_failure : QualityGate → GateRunResult → Bool
is_failure g v = g.required && not (is_ok v.result)

abbrev pub is_plugin_failure : Option PluginRegistry → String → GateRunResult → Bool
is_plugin_failure none name v = false
is_plugin_failure (some reg) name v = is_gate_required v.gate_name reg && not (is_ok v.result)

abbrev pub plugin_names : Option PluginRegistry → List String
plugin_names none = []
plugin_names (some reg) = reg.gates

module _ {W : Type 0} (ex : Executor W) where
  -- The answers of the gates, each one after those before it, and the world after them.
  abbrev pub each_gate : List QualityGate → W → List GateRunResult × W
  each_gate [] w = ([], w)
  each_gate (g ∷ gs) w =
      let (o, w₁) = ex.execute g.command g.timeout w in
      let (vs, w₂) = each_gate gs w₁ in (verdict ex o g ∷ vs, w₂)

  abbrev pub each_plugin : List String → W → List GateRunResult × W
  each_plugin [] w = ([], w)
  each_plugin (name ∷ names) w =
      let (o, (m, w₁)) = ex.run_plugin name w in
      let (vs, w₂) = each_plugin names w₁ in (get_or o (plugin_error name m) ∷ vs, w₂)
