-- ===== src/Common/Lists.antt =====
-- Lists measured by native numbers, membership tests, and predicates by recursion.
use Prim.Native.Nat.{ℕ, zero, suc, ◌+◌, ◌-◌, ◌≤◌}
use mathlib.Core.Path.{◌≡◌, refl}
use mathlib.Core.Bool.{Bool, true, false, ◌||◌, ◌&&◌}
use mathlib.Core.List.{List, [], ◌∷◌, ◌++◌}
use native.Mathlib.Omega.{arith}
use zerg.Common.Tests.{Eq, ltb, ◌==◌, one_if, if◌then◌else◌}

module _ {ℓ} {A : Type ℓ} where
  abbrev pub length : List A → ℕ
  length [] = 0
  length (x ∷ xs) = suc (length xs)

  pub length-append : (xs ys : List A) → length (xs ++ ys) ≡ length xs + length ys
  length-append [] ys = omega arith
  length-append (x ∷ xs) ys = omega (arith, length-append xs ys)

  abbrev pub drop : ℕ → List A → List A
  drop zero xs = xs
  drop (suc n) [] = []
  drop (suc n) (x ∷ xs) = drop n xs

  pub length-drop : (n : ℕ) (xs : List A) → length (drop n xs) ≡ length xs - n
  length-drop zero xs = omega arith
  length-drop (suc n) [] = omega arith
  length-drop (suc n) (x ∷ xs) = omega (arith, length-drop n xs)

  abbrev pub is_empty : List A → Bool
  is_empty [] = true
  is_empty (x ∷ xs) = false

  pub is_empty-append : (xs ys : List A) → is_empty (xs ++ ys) ≡ (is_empty xs && is_empty ys)
  is_empty-append [] ys = refl
  is_empty-append (x ∷ xs) ys = refl

  pub append_nil : (xs : List A) → xs ++ [] ≡ xs
  append_nil [] = refl
  append_nil (x ∷ xs) = rw (append_nil xs) refl

  pub append_one : (xs : List A) (y : A) (ys : List A) → (xs ++ y ∷ []) ++ ys ≡ xs ++ y ∷ ys
  append_one [] y ys = refl
  append_one (x ∷ xs) y ys = rw (append_one xs y ys) refl

  abbrev pub take : ℕ → List A → List A
  take zero xs = []
  take (suc n) [] = []
  take (suc n) (x ∷ xs) = x ∷ take n xs

  -- `sum(1 for x in xs if p(x))`
  abbrev pub count_if : (A → Bool) → List A → ℕ
  count_if p [] = 0
  count_if p (x ∷ xs) = one_if (p x) + count_if p xs

  -- `[x for x in xs if p(x)]`
  abbrev pub select : (A → Bool) → List A → List A
  select p [] = []
  select p (x ∷ xs) = if p x then x ∷ select p xs else select p xs

  abbrev pub all : (A → Bool) → List A → Bool
  all p [] = true
  all p (x ∷ xs) = p x && all p xs

  abbrev pub All {κ} : (A → Type κ) → List A → Type κ
  All P [] = Unit
  All P (x ∷ xs) = P x × All P xs

module _ {ℓ} {A : Type ℓ} ⦃e : Eq A⦄ where
  -- `a in xs`
  abbrev pub elem : A → List A → Bool
  elem a [] = false
  elem a (x ∷ xs) = a == x || elem a xs

  -- No element stands twice.
  abbrev pub NoRepeat : List A → Type 0
  NoRepeat [] = Unit
  NoRepeat (x ∷ xs) = (elem x xs ≡ false) × NoRepeat xs

  pub elem-append : (a : A) (xs ys : List A) → elem a (xs ++ ys) ≡ (elem a xs || elem a ys)
  elem-append a [] ys = refl
  elem-append a (x ∷ xs) ys = ground (arith, elem-append a xs ys)

  pub All-of_elem {κ} :
      {P : A → Type κ} (xs : List A) → ((a : A) → elem a xs ≡ true → P a) → All P xs
  All-of_elem [] h = tt
  All-of_elem (x ∷ xs) h =
      (h x (rw (e.same_iff x x).1 refl), All-of_elem xs (λ a m. h a (ground arith)))

  -- `xs.count(a)`
  abbrev pub count : A → List A → ℕ
  count a [] = 0
  count a (x ∷ xs) = one_if (a == x) + count a xs

  pub count-append : (a : A) (xs ys : List A) → count a (xs ++ ys) ≡ count a xs + count a ys
  count-append a [] ys = omega arith
  count-append a (x ∷ xs) ys = omega (arith, count-append a xs ys)

  pub elem-count : (a : A) (xs : List A) → elem a xs ≡ ltb 0 (count a xs)
  elem-count a [] = refl
  elem-count a (x ∷ xs) = ground (arith, elem-count a xs)

  pub count-NoRepeat : (a : A) (xs : List A) → NoRepeat xs → count a xs ≡ one_if (elem a xs)
  count-NoRepeat a [] u = refl
  count-NoRepeat a (x ∷ xs) (fresh, u) = ground (arith, count-NoRepeat a xs u, e.same_iff a x)

  -- The list without the first place of the element.
  abbrev without : A → List A → List A
  without a [] = []
  without a (x ∷ xs) = if a == x then xs else x ∷ without a xs

  count-without :
      (a b : A) (xs : List A)
      → elem a xs ≡ true
      → count b (without a xs) + one_if (b == a) ≡ count b xs
  count-without a b (x ∷ xs) h =
      ground (arith, count-without a b xs, e.same_iff a x, e.same_iff b a, e.same_iff b x)
  count-without a b [] h = ground arith

  length-without :
      (a : A) (xs : List A) → elem a xs ≡ true → suc (length (without a xs)) ≡ length xs
  length-without a (x ∷ xs) h = ground (arith, length-without a xs)
  length-without a [] h = ground arith

  -- A list in which nothing stands more often than in another is not longer.
  pub length_of_count :
      (xs ys : List A) → ((a : A) → count a xs ≤ count a ys) → length xs ≤ length ys
  length_of_count [] ys h = omega arith
  length_of_count (x ∷ xs) ys h =
      let here : elem x ys ≡ true = ground (arith, h x, elem-count x ys, e.same_iff x x) in
      let fewer =
        length_of_count xs (without x ys) (λ a. omega (arith, h a, count-without x a ys here)) in
      omega (arith, fewer, length-without x ys here)
