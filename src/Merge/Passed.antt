-- ===== src/Merge/Passed.antt =====
-- What the calls of zerg/merge.py that run gates answer, and what they leave as it is.
use zerg.Common.{
  ℕ, ◌+◌, ◌≡◌, refl, sym, subst, Bool, true, not, ◌&&◌, none, List, [], ◌∷◌, ◌++◌, length-append,
  ◌==◌, nat_eq, string_eq, if◌then◌else◌, arith, all, length, select, is_empty,
}
use zerg.Gates.{
  GateResult, QualityGate, GateRunResult, is_ok, same_result, Executor, Runner, run_all_gates,
}
use zerg.Gates.Reference.{cut, covers-length, none_bad, is_failure}
use zerg.Gates.Verdict.{IsJudged, run_all_gates-IsJudged}
use zerg.Merge.Pipeline.{required_gates, passed_all}

-- As many results as gates, none of them a failure.
abbrev pub AllPassed : ℕ → List GateRunResult → Type 0
AllPassed n vs = (all (λ v. is_ok v.result) vs ≡ true) × (length vs ≡ n)

all-append :
    {A : Type 0} (p : A → Bool) (xs ys : List A) → all p (xs ++ ys) ≡ (all p xs && all p ys)
all-append p [] ys = refl
all-append p (x ∷ xs) ys = ground (arith, all-append p xs ys)

pub AllPassed-append :
    (n k : ℕ) (vs ws : List GateRunResult)
    → AllPassed n vs
    → AllPassed k ws
    → AllPassed (n + k) (vs ++ ws)
AllPassed-append n k vs ws h g = (
  ground (arith, all-append (λ v. is_ok v.result) vs ws, h.0, g.0),
  ground (arith, length-append vs ws, h.1, g.1),
)

pub is_ok-of_pass : (v : GateResult) → same_result v GateResult.pass ≡ true → is_ok v ≡ true
is_ok-of_pass GateResult.pass h = refl
is_ok-of_pass GateResult.skip h = refl
is_ok-of_pass GateResult.fail h = h
is_ok-of_pass GateResult.timeout h = h
is_ok-of_pass GateResult.error h = h

pub passed_all-AllPassed :
    (vs : List GateRunResult) → passed_all vs ≡ true → all (λ v. is_ok v.result) vs ≡ true
passed_all-AllPassed [] h = refl
passed_all-AllPassed (v ∷ vs) h = ground (arith, h, is_ok-of_pass v.result, passed_all-AllPassed vs)

abbrev is_required : QualityGate → Bool
is_required g = g.required

all-select : (gs : List QualityGate) → all is_required (select is_required gs) ≡ true
all-select [] = refl
all-select (g ∷ gs) = ground (arith, all-select gs)

select-all : (gs : List QualityGate) → all is_required gs ≡ true → select is_required gs ≡ gs
select-all [] h = refl
select-all (g ∷ gs) h = ground (arith, h, select-all gs)

-- Of required gates, a good verdict on a result for each is that none is a failure.
none_bad-all :
    (gs : List QualityGate) (vs : List GateRunResult)
    → all is_required gs ≡ true
    → none_bad is_failure gs vs ≡ true
    → length vs ≡ length gs
    → all (λ v. is_ok v.result) vs ≡ true
none_bad-all gs [] r h e = refl
none_bad-all [] (v ∷ vs) r h e = absurd (ground (arith, e))
none_bad-all (g ∷ gs) (v ∷ vs) r h e = ground (arith, r, h, e, none_bad-all gs vs)

-- With no plugins, all results are of gates.
cut-all :
    (stop : Bool) (gs : List QualityGate) (vs : List GateRunResult)
    → let (xs, ys) = cut stop is_failure gs vs in is_empty ys ≡ true → vs ≡ xs
cut-all stop [] [] h = refl
cut-all stop [] (v ∷ vs) h = absurd (ground (arith, h))
cut-all stop (g ∷ gs) [] h = refl
cut-all stop (g ∷ gs) (v ∷ vs) h = ground (arith, h, cut-all stop gs vs)

IsJudged-AllPassed :
    {W : Type 0} (ex : Executor W) (gs : List QualityGate) (r : Runner W) (passed : Bool)
    (vs : List GateRunResult) (r' : Runner W)
    → all is_required gs ≡ true
    → IsJudged ex true gs none r (passed, (vs, r'))
    → passed ≡ true
    → AllPassed (length gs) vs
IsJudged-AllPassed ex gs r passed vs r' required j e =
    let (xs, ys) = cut true is_failure gs vs in
    let good : none_bad is_failure gs xs ≡ true = ground (arith, j.judged, e) in
    let many = covers-length is_failure true gs xs j.gates_run good in
    subst (AllPassed (length gs)) (sym (cut-all true gs vs j.plugins_told))
      (none_bad-all gs xs required good many, many)

-- Gates of the runner without a pipeline: they are required ones already.
pub fallback-AllPassed :
    {W : Type 0} (ex : Executor W) (skip_tests : Bool) (gates : List QualityGate) (r : Runner W)
    → let gs = required_gates skip_tests gates in
      let (passed, (vs, r')) = run_all_gates ex gs true true none r in
      passed ≡ true → AllPassed (length gs) vs
fallback-AllPassed ex skip_tests gates r =
    let all_gates = if skip_tests then select (λ g. not (g.name == "test")) gates else gates in
    let gs = select is_required all_gates in
    let required = all-select all_gates in
    let j = run_all_gates-IsJudged ex true gs true none r in
    let (passed, (vs, r')) = run_all_gates ex gs true true none r in
    IsJudged-AllPassed ex gs r passed vs r' required
      (subst (λ x. IsJudged ex true x none r (passed, (vs, r'))) (select-all gs required) j)
