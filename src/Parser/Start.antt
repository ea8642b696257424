-- ===== src/Parser/Start.antt =====
-- The first round of `topological_sort` of zerg/parser.py.
use zerg.Common.{
  ◌≡◌, ◌∙◌, sym, subst, refl, none, some, List, [], ◌∷◌, String, string_eq, nat_eq, if◌then◌else◌,
  elem, length, count-NoRepeat, arith, NoRepeat, select,
}
use zerg.Common.Int.{ℤ, pos, eqb_ℤ}
use zerg.Common.Dict.{
  Dict, lookup, keys, elem-keys-select, keys-NoRepeat, IsDistinct, IsDistinct-of_keys,
}
use zerg.Validation.{GraphTask}
use zerg.Parser.{index, cleared}
use zerg.Parser.Sort.{in_degrees, start_round}
use zerg.Parser.Index.{ids, deps_of, lookup-dependencies, keys-index}
use zerg.Parser.Kahn.{missing, IsSorting}

lookup-in_degrees :
    (d : Dict String (List String)) (k : String)
    → lookup k (in_degrees d)
      ≡ (elim (lookup k d) [ none ↦ none | some ds ↦ some (pos (length ds)) ])
unfolding in_degrees lookup
lookup-in_degrees [] k = refl
lookup-in_degrees ((j, ds) ∷ d) k = ground (arith, lookup-in_degrees d k)

keys-in_degrees : (d : Dict String (List String)) → keys (in_degrees d) ≡ keys d
unfolding in_degrees
keys-in_degrees [] = refl
keys-in_degrees ((j, ds) ∷ d) = rw (keys-in_degrees d) refl

missing_all : (ds : List String) → missing [] ds ≡ length ds
missing_all [] = refl
missing_all (d ∷ ds) = omega (arith, missing_all ds)

module _ (ts : List GraphTask) (u : NoRepeat (ids ts)) where
  pub keys_known :
      (keys (index ts cleared).tasks ≡ ids ts) × (keys (index ts cleared).dependencies ≡ ids ts)
  keys_known = keys-index ts cleared u (λ k m. unfold lookup in refl) (λ k m. unfold lookup in refl)

  abbrev first_degrees : Dict String ℤ
  first_degrees = in_degrees (index ts cleared).dependencies

  first_degrees-IsDistinct : IsDistinct first_degrees
  first_degrees-IsDistinct =
      IsDistinct-of_keys first_degrees
        (subst NoRepeat (sym (keys-in_degrees (index ts cleared).dependencies ∙ keys_known.1)) u)

  lookup-first_degrees :
      (a : String)
      → lookup a first_degrees
        ≡ (if elem a (ids ts) then some (pos (missing [] (deps_of ts a))) else none)
  unfolding lookup
  lookup-first_degrees a = ground (
    arith,
    lookup-in_degrees (index ts cleared).dependencies a,
    lookup-dependencies ts cleared a u,
    missing_all (deps_of ts a),
  )

  pub start_round-IsSorting : IsSorting ts (start_round (index ts cleared))
  unfolding start_round
  start_round-IsSorting = record {
    degrees = λ a known. ground (arith, lookup-first_degrees a);
    placed = λ a. ground (
      arith,
      lookup-first_degrees a,
      count-NoRepeat a (keys (select (λ e. eqb_ℤ e.1 (pos 0)) first_degrees))
          (keys-NoRepeat (λ z. eqb_ℤ z (pos 0)) first_degrees first_degrees-IsDistinct),
      elem-keys-select (λ z. eqb_ℤ z (pos 0)) a first_degrees first_degrees-IsDistinct,
    );
    ordered = refl;
  }
