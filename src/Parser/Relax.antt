-- ===== src/Parser/Relax.antt =====
-- What one round of the sort of zerg/parser.py does to the in-degree of each task and to the queue.
use zerg.Common.{
  ℕ, ◌+◌, ◌-◌, ◌≤◌, ◌≡◌, ◌∙◌, ap, subst, refl, ◌&&◌, List, [], ◌∷◌, ◌++◌, String, ◌==◌, string_eq,
  nat_eq, ltb, nat_beq, if◌then◌else◌, get_or, count, count-append, one_if, arith, Bool-cases, inl,
  inr,
}
use zerg.Common.Int.{ℤ, pos, ◌-ℤ◌, eqb_ℤ}
use zerg.Common.Dict.{Dict, lookup, insert, lookup-insert}
use zerg.Parser.Sort.{relax}

abbrev pub degree : String → Dict String ℤ → ℤ
degree k degrees = get_or (lookup k degrees) (pos 0)

-- A task that does not stand in `ds` keeps its degree and its places in the queue.
pub relax_other :
    (ds : List String) (degrees : Dict String ℤ) (queue : List String) (a : String)
    → count a ds ≡ 0
    → (degree a (relax ds degrees queue).0 ≡ degree a degrees)
      × (count a (relax ds degrees queue).1 ≡ count a queue)
unfolding relax
relax_other [] degrees queue a h = (refl, refl)
relax_other (d ∷ ds) degrees queue a h =
    let n = degree d degrees -ℤ pos 1 in
    let q = if eqb_ℤ n (pos 0) then queue ++ d ∷ [] else queue in
    ground (
      arith,
      relax_other ds (insert d n degrees) q a,
      lookup-insert d a n degrees,
      count-append a queue (d ∷ []),
      string_eq.same_iff a d,
      string_eq.same_iff d a,
    )

minus_one : (n : ℕ) → 1 ≤ n → pos n -ℤ pos 1 ≡ pos (n - 1)
unfolding ◌-ℤ◌
minus_one n h = ground arith

-- A task that stands in `ds` at most as often as its degree loses that many, and enters the queue
-- once if that brings its degree from above 0 to 0.
pub relax-degree :
    (ds : List String) (degrees : Dict String ℤ) (queue : List String) (a : String) (n : ℕ)
    → degree a degrees ≡ pos n
    → count a ds ≤ n
    → (degree a (relax ds degrees queue).0 ≡ pos (n - count a ds))
      × (count a (relax ds degrees queue).1
          ≡ count a queue + one_if (ltb 0 n && nat_beq n (count a ds)))
unfolding relax
relax-degree [] degrees queue a n e h = ground arith
relax-degree (d ∷ ds) degrees queue a n e h = elim (Bool-cases (a == d)) [
  | inl same ↦
      let here : a ≡ d = (string_eq.same_iff a d).0 same in
      let m = degree d degrees -ℤ pos 1 in
      let q = if eqb_ℤ m (pos 0) then queue ++ d ∷ [] else queue in
      let positive : 1 ≤ n = ground arith in
      let before : degree d degrees ≡ pos n = subst (λ k. degree k degrees ≡ pos n) here e in
      let lowered : m ≡ pos (n - 1) = ap (λ z. z -ℤ pos 1) before ∙ minus_one n positive in
      let after : degree a (insert d m degrees) ≡ pos (n - 1) =
        ground (arith, lowered, lookup-insert d a m degrees, string_eq.same_iff d a) in
      let room : count a ds ≤ n - 1 = ground arith in
      ground (
        arith,
        relax-degree ds (insert d m degrees) q a (n - 1) after room,
        count-append a queue (d ∷ []),
        lowered,
      )
  | inr other ↦
      let m = degree d degrees -ℤ pos 1 in
      let q = if eqb_ℤ m (pos 0) then queue ++ d ∷ [] else queue in
      ground (
        arith,
        relax-degree ds (insert d m degrees) q a n,
        lookup-insert d a m degrees,
        count-append a queue (d ∷ []),
        string_eq.same_iff d a,
        string_eq.same_iff a d,
      )
]
