-- ===== src/Parser/Index.antt =====
-- The index that zerg/parser.py builds of a task graph with distinct IDs.
use zerg.Common.{
  ◌+◌, ◌≡◌, refl, true, false, none, some, List, [], ◌∷◌, ◌++◌, String, ◌==◌, string_eq,
  if◌then◌else◌, get_or, elem, map, count, count-append, NoRepeat, append_nil, append_one, sym, ap,
  ◌∙◌, arith, beq_refl,
}
use zerg.Common.Dict.{Dict, lookup, insert, lookup-insert, keys, keys-insert_new}
use zerg.Validation.{GraphTask}
use zerg.Parser.{TaskParser, add_dependents, index, get_dependents}

abbrev pub ids : List GraphTask → List String
ids = map (λ t. t.id)

-- The dependencies of the first task with this ID.
abbrev pub deps_of : List GraphTask → String → List String
deps_of [] k = []
deps_of (t ∷ ts) k = if t.id == k then t.dependencies else deps_of ts k

count-add_dependents :
    (k : String) (deps : List String) (d : Dict String (List String)) (j a : String)
    → count a (get_or (lookup j (add_dependents k deps d)) [])
      ≡ count a (get_or (lookup j d) []) + (if a == k then count j deps else 0)
unfolding add_dependents
count-add_dependents k [] d j a = ground arith
count-add_dependents k (dep ∷ deps) d j a =
    let d' = insert dep (get_or (lookup dep d) [] ++ k ∷ []) d in
    ground (
      arith,
      count-add_dependents k deps d' j a,
      lookup-insert dep j (get_or (lookup dep d) [] ++ k ∷ []) d,
      count-append a (get_or (lookup dep d) []) (k ∷ []),
      string_eq.same_iff j dep,
      string_eq.same_iff dep j,
    )

pub deps_of-unknown :
    (ts : List GraphTask) (k : String) → elem k (ids ts) ≡ false → deps_of ts k ≡ []
deps_of-unknown [] k h = refl
deps_of-unknown (t ∷ ts) k h =
    ground (arith, deps_of-unknown ts k, string_eq.same_iff t.id k, beq_refl k)

-- Task `a` stands among the dependents of `j` as often as `j` among its dependencies.
pub count-get_dependents :
    (ts : List GraphTask) (p : TaskParser) (j a : String)
    → NoRepeat (ids ts)
    → count a (get_dependents j (index ts p))
      ≡ count a (get_dependents j p) + count j (deps_of ts a)
unfolding index get_dependents
count-get_dependents [] p j a u = omega arith
count-get_dependents (t ∷ ts) p j a (fresh, u) = ground (
  arith,
  count-get_dependents ts
      (record {
        tasks = insert t.id t p.tasks;
        dependencies = insert t.id t.dependencies p.dependencies;
        dependents = add_dependents t.id t.dependencies p.dependents;
      })
      j a u,
  count-add_dependents t.id t.dependencies p.dependents j a,
  deps_of-unknown ts t.id fresh,
  string_eq.same_iff t.id a,
  string_eq.same_iff a t.id,
)

pub lookup-dependencies :
    (ts : List GraphTask) (p : TaskParser) (k : String)
    → NoRepeat (ids ts)
    → lookup k (index ts p).dependencies
      ≡ (if elem k (ids ts) then some (deps_of ts k) else lookup k p.dependencies)
unfolding index
lookup-dependencies [] p k u = refl
lookup-dependencies (t ∷ ts) p k (fresh, u) = ground (
  arith,
  lookup-dependencies ts
      (record {
        tasks = insert t.id t p.tasks;
        dependencies = insert t.id t.dependencies p.dependencies;
        dependents = add_dependents t.id t.dependencies p.dependents;
      })
      k u,
  lookup-insert t.id k t.dependencies p.dependencies,
  string_eq.same_iff t.id k,
  string_eq.same_iff k t.id,
)

pub keys-index :
    (ts : List GraphTask) (p : TaskParser)
    → NoRepeat (ids ts)
    → ((k : String) → elem k (ids ts) ≡ true → lookup k p.tasks ≡ none)
    → ((k : String) → elem k (ids ts) ≡ true → lookup k p.dependencies ≡ none)
    → (keys (index ts p).tasks ≡ keys p.tasks ++ ids ts)
      × (keys (index ts p).dependencies ≡ keys p.dependencies ++ ids ts)
unfolding index
keys-index [] p u f g = (sym (append_nil (keys p.tasks)), sym (append_nil (keys p.dependencies)))
keys-index (t ∷ ts) p (fresh, u) f g =
    let here : elem t.id (ids (t ∷ ts)) ≡ true = ground (arith, beq_refl t.id) in
    let rest =
      keys-index ts
        (record {
          tasks = insert t.id t p.tasks;
          dependencies = insert t.id t.dependencies p.dependencies;
          dependents = add_dependents t.id t.dependencies p.dependents;
        })
        u (λ k m. ground (arith, f k, lookup-insert t.id k t p.tasks, string_eq.same_iff t.id k))
        (λ k m. ground (
          arith,
          g k,
          lookup-insert t.id k t.dependencies p.dependencies,
          string_eq.same_iff t.id k,
        )) in
    (
      rest.0
          ∙ ap (λ ks. ks ++ ids ts) (keys-insert_new t.id t p.tasks (f t.id here))
          ∙ append_one (keys p.tasks) t.id (ids ts),
      rest.1
          ∙ ap (λ ks. ks ++ ids ts)
              (keys-insert_new t.id t.dependencies p.dependencies (g t.id here))
          ∙ append_one (keys p.dependencies) t.id (ids ts),
    )
