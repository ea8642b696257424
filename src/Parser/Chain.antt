-- ===== src/Parser/Chain.antt =====
-- Following the predecessors back in `get_critical_path` of zerg/parser.py.
use zerg.Common.{
  ℕ, zero, suc, ◌+◌, ◌≤◌, ◌<◌, ◌≡◌, ◌∙◌, ap, sym, subst, refl, true, false, Option, none, some,
  List, [], ◌∷◌, ◌++◌, String, string_eq, nat_eq, elem, all, elem-append, ltb, length, ◌==◌, arith,
  beq_refl, Bool-cases, inl, inr, if◌then◌else◌,
}
use zerg.Common.Dict.{lookup}
use zerg.Validation.{GraphTask}
use zerg.Parser.{TaskParser}
use zerg.Parser.Index.{ids, deps_of}
use zerg.Parser.Kahn.{in_order}
use zerg.Parser.Accepted.{IsAccepted}
use zerg.Parser.Critical.{Table, end_minutes, latest_end, path, follow, path_of}
use zerg.Parser.Longest.{mins, dist_of, pred_of, IsComplete, end_minutes-known}
use zerg.Parser.Settled.{graph, task_known, IsLongest, elem_of_all}

-- A chain of tasks of the graph, each a dependency of the next one.
unfoldable pub IsChain : List GraphTask → List String → Type 0
IsChain ts [] = (true ≡ false)
IsChain ts (k ∷ []) = elem k (ids ts) ≡ true
IsChain ts (d ∷ k ∷ ks) = (elem d (deps_of ts k) ≡ true) × IsChain ts (k ∷ ks)

unfoldable pub total_minutes : TaskParser → List String → ℕ
total_minutes p [] = 0
total_minutes p (k ∷ ks) = mins p k + total_minutes p ks

-- How many entries stand before the first `k`.
abbrev pub place : String → List String → ℕ
place k [] = 0
place k (j ∷ js) = if j == k then 0 else suc (place k js)

place-length : (k : String) (ks : List String) → place k ks ≤ length ks
place-length k [] = omega arith
place-length k (j ∷ js) = ground (arith, place-length k js)

place_below :
    (ts : List GraphTask) (done ks : List String) (k d : String)
    → in_order ts done ks ≡ true
    → elem k ks ≡ true
    → elem d (deps_of ts k) ≡ true
    → elem d done ≡ false
    → place d ks < place k ks
place_below ts done [] k d o m i n = absurd (ground (arith, m))
place_below ts done (j ∷ js) k d o m i n =
    let apart : (j == k) ≡ false = elim (Bool-cases (j == k)) [
      | inl e ↦
          let same : j ≡ k = ground (arith, e, string_eq.same_iff j k) in
          let deps : all (λ x. elem x done) (deps_of ts k) ≡ true =
            subst (λ x. all (λ y. elem y done) (deps_of ts x) ≡ true) same (ground (arith, o)) in
          absurd (ground (arith, n, elem_of_all d done (deps_of ts k) deps i))
      | inr e ↦ e
    ] in
    let rest : (j == d) ≡ false → place d js < place k js = λ e.
      place_below ts (done ++ j ∷ []) js k d (ground (arith, o))
        (ground (arith, m, apart, string_eq.same_iff j k, string_eq.same_iff k j)) i
        (ground (
          arith,
          n,
          e,
          elem-append d done (j ∷ []),
          string_eq.same_iff j d,
          string_eq.same_iff d j,
        )) in
    ground (arith, apart, rest)

chain_head :
    (ts : List GraphTask) (w : IsAccepted ts) (k : String) (ks : List String)
    → IsChain ts (k ∷ ks)
    → elem k (ids ts) ≡ true
unfolding IsChain
chain_head ts w k [] c = c
chain_head ts w k (j ∷ ks) (i, c) = w.known j k i

module _ (ts : List GraphTask) (w : IsAccepted ts) (order : List String) (s : Table)
    (v : IsLongest ts w order s) (all_known : (k : String) → elem k order ≡ elem k (ids ts)) where
  abbrev p : TaskParser
  p = graph ts w

  -- The minutes of a chain, after the distance of its first task, are not more than a bound on the
  -- ends of all chains.
  chain_bound :
      (most : ℕ)
      → ((k : String) → elem k (ids ts) ≡ true → dist_of s k + mins p k ≤ most)
      → (k : String) (ks : List String) → IsChain ts (k ∷ ks)
      → dist_of s k + total_minutes p (k ∷ ks) ≤ most
  unfolding IsChain total_minutes
  chain_bound most h k [] c = omega (arith, h k c)
  chain_bound most h k (j ∷ ks) (i, c) =
      let known = chain_head ts w j ks c in
      let settled = v.settled j (all_known j ∙ known) in
      omega (arith, settled.bound k i, chain_bound most h j ks c)

  chains_bound :
      (most : ℕ)
      → ((k : String) → elem k (ids ts) ≡ true → dist_of s k + mins p k ≤ most)
      → (ks : List String) → IsChain ts ks
      → total_minutes p ks ≤ most
  unfolding IsChain total_minutes
  chains_bound most h [] c = absurd (ground (arith, c))
  chains_bound most h (k ∷ ks) c = omega (arith, chain_bound most h k ks c)

  lookup_of_pred :
      (k : String) (x : Option String)
      → elem k order ≡ true
      → pred_of s k ≡ x
      → lookup k s.pred ≡ some x
  unfolding IsComplete
  lookup_of_pred k x m e =
      ground (arith, e, (v.complete k (task_known ts w k (sym (all_known k) ∙ m))).1)

  follow-stop :
      (n : ℕ) (k : String) (found : List String)
      → lookup k s.pred ≡ some none
      → follow n s (lookup k s.pred) found ≡ path found
  unfolding follow
  follow-stop n k found e = rw e refl

  follow-back :
      (n : ℕ) (k d : String) (found : List String)
      → lookup k s.pred ≡ some (some d)
      → (d == "") ≡ false
      → follow (suc n) s (lookup k s.pred) found ≡ follow n s (lookup d s.pred) (d ∷ found)
  unfolding follow
  follow-back n k d found e h = rw e (ground (arith, h))

  -- Following the predecessors back ends at a task with none, with a step for each task before.
  follow_lem :
      (n : ℕ) (k : String) (ks : List String)
      → elem "" (ids ts) ≡ false
      → in_order ts [] order ≡ true
      → elem k order ≡ true
      → IsChain ts (k ∷ ks)
      → place k order ≤ n
      → (found : List String) × (follow n s (lookup k s.pred) (k ∷ ks) ≡ path found)
        × IsChain ts found
        × (total_minutes p found ≡ dist_of s k + total_minutes p (k ∷ ks))
  unfolding IsChain total_minutes
  follow_lem zero k ks b o m c h = elim (v.settled k m).cause [
    | inl (e, f) ↦
        (k ∷ ks, follow-stop 0 k (k ∷ ks) (lookup_of_pred k none m e), c, omega (arith, f))
    | inr (d, i, e, f) ↦ absurd (omega (arith, h, place_below ts [] order k d o m i refl))
  ]
  follow_lem (suc n) k ks b o m c h = elim (v.settled k m).cause [
    | inl (e, f) ↦
        (k ∷ ks, follow-stop (suc n) k (k ∷ ks) (lookup_of_pred k none m e), c, omega (arith, f))
    | inr (d, i, e, f) ↦
        let known = w.known k d i in
        let named : (d == "") ≡ false = ground (arith, b, known, string_eq.same_iff d "") in
        let (found, g, c', t) =
          follow_lem n d (k ∷ ks) b o (all_known d ∙ known) (i, c)
            (omega (arith, h, place_below ts [] order k d o m i refl)) in
        (
          found,
          follow-back n k d (k ∷ ks) (lookup_of_pred k (some d) m e) named ∙ g,
          c',
          omega (arith, t, f),
        )
  ]

  abbrev score : String → ℕ
  score k = dist_of s k + mins p k

  latest_end-next :
      (best k : String) (ks : List String)
      → end_minutes p s best ≡ some (score best)
      → end_minutes p s k ≡ some (score k)
      → latest_end p s best (k ∷ ks)
        ≡ latest_end p s (if ltb (score best) (score k) then k else best) ks
  unfolding latest_end
  latest_end-next best k ks e f = ground (arith, e, f)

  -- The end is the first of the greatest.
  latest_end_lem :
      (best : String) (ks : List String)
      → elem best (ids ts) ≡ true
      → ((k : String) → elem k ks ≡ true → elem k (ids ts) ≡ true)
      → (e : String) × (latest_end p s best ks ≡ some e)
        × (elem e (ids ts) ≡ true)
        × ((k : String) → elem k (best ∷ ks) ≡ true → score k ≤ score e)
  unfolding latest_end
  latest_end_lem best [] b h = (best, refl, b, λ k m. ground (arith, m, string_eq.same_iff k best))
  latest_end_lem best (k ∷ ks) b h =
      let next = if ltb (score best) (score k) then k else best in
      let here = h k (ground (arith, beq_refl k)) in
      let (e, f, known, most) =
        latest_end_lem next ks (ground (arith, b, here)) (λ j m. h j (ground (arith, m))) in
      let end = λ (j : String) (m : elem j (ids ts) ≡ true).
        end_minutes-known p s j v.complete (task_known ts w j m) in
      (
        e,
        latest_end-next best k ks (end best b) (end k here) ∙ f,
        known,
        λ j m. ground (
          arith,
          m,
          most j,
          most next,
          beq_refl next,
          string_eq.same_iff j best,
          string_eq.same_iff j k,
        ),
      )

  path_of-next :
      (k e : String) (ks : List String)
      → latest_end p s k ks ≡ some e
      → path_of p (k ∷ ks) (some s) ≡ follow (length (k ∷ ks)) s (lookup e s.pred) (e ∷ [])
  path_of-next k e ks f = rw f refl

  abbrev IsLongestChain : List String → Type 0
  IsLongestChain found =
      IsChain ts found
      × ((other : List String) → IsChain ts other → total_minutes p other ≤ total_minutes p found)

  -- The path of the final tables.
  pub path_of-IsLongestChain :
      (k : String) (ks : List String)
      → order ≡ k ∷ ks
      → elem "" (ids ts) ≡ false
      → in_order ts [] order ≡ true
      → (found : List String) × (path_of p (k ∷ ks) (some s) ≡ path found) × IsLongestChain found
  unfolding IsChain total_minutes
  path_of-IsLongestChain k ks same b o =
      let listed : (j : String) → elem j (k ∷ ks) ≡ elem j (ids ts) =
        λ j. ap (λ js. elem j js) (sym same) ∙ all_known j in
      let (e, f, known, most) =
        latest_end_lem k ks (sym (listed k) ∙ ground (arith, beq_refl k))
          (λ j m. sym (listed j) ∙ ground (arith, m)) in
      let (found, g, c, t) =
        follow_lem (length (k ∷ ks)) e [] b o (all_known e ∙ known) known
          (subst (λ js. place e js ≤ length (k ∷ ks)) (sym same) (place-length e (k ∷ ks))) in
      let bound = chains_bound (score e) (λ j m. most j (listed j ∙ m)) in
      (found, path_of-next k e ks f ∙ g, (c, λ other i. omega (arith, t, bound other i)))
