-- ===== src/Common/Dict.antt =====
-- Python's `dict` in insertion order, over any key with an equality test. Assigning to a key that
-- is there keeps its place.
use Prim.Native.Nat.{ℕ, ◌+◌}
use mathlib.Core.Path.{◌≡◌, refl}
use mathlib.Core.Bool.{Bool, true, false}
use mathlib.Core.Option.{Option, none, some}
use mathlib.Core.List.{List, [], ◌∷◌, ◌++◌, map}
use native.Mathlib.Omega.{arith}
use zerg.Common.Lists.{NoRepeat, elem, select}
use zerg.Common.Tests.{Eq, ◌==◌, if◌then◌else◌, one_if, is_some, beq_refl}

abbrev pub Dict {ℓ κ} : Type ℓ → Type κ → Type (ℓ ⊔ κ)
Dict K V = List (K × V)

module _ {ℓ κ} {K : Type ℓ} {V : Type κ} where
  -- `d.keys()`, `d.values()`
  abbrev pub keys : Dict K V → List K
  keys = map (λ e. e.0)

  abbrev pub values : Dict K V → List V
  values = map (λ e. e.1)

  -- `sum(1 for v in d.values() if p(v))`
  abbrev pub count_values : (V → Bool) → Dict K V → ℕ
  count_values p [] = 0
  count_values p (e ∷ d) = one_if (p e.1) + count_values p d

module _ {ℓ κ} {K : Type ℓ} {V : Type κ} ⦃e : Eq K⦄ where
  -- `d.get(k)`
  unfoldable pub lookup : K → Dict K V → Option V
  lookup k [] = none
  lookup k ((j, v) ∷ d) = if j == k then some v else lookup k d

  -- `k in d`
  abbrev pub contains : K → Dict K V → Bool
  contains k d = is_some (lookup k d)

  -- `d[k] = v`
  unfoldable pub insert : K → V → Dict K V → Dict K V
  insert k v [] = (k, v) ∷ []
  insert k v ((j, w) ∷ d) = if j == k then (j, v) ∷ d else (j, w) ∷ insert k v d

  pub lookup-insert :
      (k j : K) (v : V) (d : Dict K V)
      → lookup j (insert k v d) ≡ (if k == j then some v else lookup j d)
  unfolding lookup insert
  lookup-insert k j v [] = refl
  lookup-insert k j v ((i, w) ∷ d) =
      ground (arith, e.same_iff k j, e.same_iff i k, e.same_iff i j, lookup-insert k j v d)

  pub lookup-insert_self : (k : K) (v : V) (d : Dict K V) → lookup k (insert k v d) ≡ some v
  lookup-insert_self k v d = simp (lookup-insert, beq_refl)

  -- Replacing a value moves a count by the two values alone.
  pub count_values-insert :
      (p : V → Bool) (k : K) (v old : V) (d : Dict K V)
      → lookup k d ≡ some old
      → count_values p (insert k v d) + one_if (p old) ≡ count_values p d + one_if (p v)
  unfolding lookup insert
  count_values-insert p k v old [] h = cc
  count_values-insert p k v old ((j, w) ∷ d) h = ground (arith, count_values-insert p k v old d)

  pub count_values-insert_new :
      (p : V → Bool) (k : K) (v : V) (d : Dict K V)
      → lookup k d ≡ none
      → count_values p (insert k v d) ≡ count_values p d + one_if (p v)
  unfolding lookup insert
  count_values-insert_new p k v [] h = omega arith
  count_values-insert_new p k v ((j, w) ∷ d) h = ground (arith, count_values-insert_new p k v d)

  -- No key stands twice.
  abbrev pub IsDistinct : Dict K V → Type κ
  IsDistinct [] = Unit
  IsDistinct (x ∷ d) = (lookup x.0 d ≡ none) × IsDistinct d

  none_at :
      (k j : K) (v : V) (d : Dict K V) → lookup j d ≡ none → (j == k) ≡ true → lookup k d ≡ none
  none_at k j v d absent same = ground (arith, e.same_iff j k)

  -- Of a dictionary whose keys differ, a selection by value lists the keys that have such a value.
  pub elem-keys-select :
      (p : V → Bool) (k : K) (d : Dict K V)
      → IsDistinct d
      → elem k (keys (select (λ x. p x.1) d)) ≡ (elim (lookup k d) [ none ↦ false | some v ↦ p v ])
  unfolding lookup
  elem-keys-select p k [] u = refl
  elem-keys-select p k ((j, v) ∷ d) (fresh, u) =
      ground
        (arith, elem-keys-select p k d u, none_at k j v d fresh, e.same_iff j k, e.same_iff k j)

  pub keys-NoRepeat :
      (p : V → Bool) (d : Dict K V) → IsDistinct d → NoRepeat (keys (select (λ x. p x.1) d))
  keys-NoRepeat p [] u = tt
  keys-NoRepeat p ((j, v) ∷ d) (fresh, u) =
      ground (arith, elem-keys-select p j d u, keys-NoRepeat p d u)

  pub elem-keys : (k : K) (d : Dict K V) → elem k (keys d) ≡ is_some (lookup k d)
  unfolding lookup
  elem-keys k [] = refl
  elem-keys k ((j, v) ∷ d) = ground (arith, elem-keys k d, e.same_iff k j, e.same_iff j k)

  pub keys-insert_new :
      (k : K) (v : V) (d : Dict K V) → lookup k d ≡ none → keys (insert k v d) ≡ keys d ++ k ∷ []
  unfolding lookup insert
  keys-insert_new k v [] h = refl
  keys-insert_new k v ((j, w) ∷ d) h = ground (arith, keys-insert_new k v d)

  pub IsDistinct-of_keys : (d : Dict K V) → NoRepeat (keys d) → IsDistinct d
  IsDistinct-of_keys [] h = tt
  IsDistinct-of_keys ((k, v) ∷ d) (fresh, u) =
      (ground (arith, elem-keys k d), IsDistinct-of_keys d u)
