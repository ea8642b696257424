-- ===== src/Backpressure/Window.antt =====
-- The bounded deque of zerg/backpressure.py, and the last items of a list.
use zerg.Common.{
  ℕ, zero, suc, ◌+◌, ◌-◌, ◌≤◌, ◌≡◌, refl, Bool, List, [], ◌∷◌, ◌++◌, arith, length, drop,
  length-append, length-drop, Bool, sym, ap, ◌∙◌,
}
use zerg.Backpressure.{append}

-- The last `size` items of a list.
abbrev pub last : ℕ → List Bool → List Bool
last size xs = drop (length xs - size) xs

drop-append : (n : ℕ) (xs ys : List Bool) → n ≤ length xs → drop n (xs ++ ys) ≡ drop n xs ++ ys
drop-append zero xs ys h = refl
drop-append (suc n) [] ys h = absurd (omega arith)
drop-append (suc n) (x ∷ xs) ys h = drop-append n xs ys (omega arith)

drop-nil : (n : ℕ) → drop {A = Bool} n [] ≡ []
drop-nil zero = refl
drop-nil (suc n) = refl

drop-drop : (m n : ℕ) (xs : List Bool) → drop m (drop n xs) ≡ drop (n + m) xs
drop-drop m zero xs = ap (λ k. drop k xs) (omega arith)
drop-drop m (suc n) [] = drop-nil m ∙ sym (drop-nil (suc n + m))
drop-drop m (suc n) (x ∷ xs) =
    drop-drop m n xs
    ∙ ap (λ k. drop k (x ∷ xs)) (let e : suc (n + m) ≡ suc n + m = omega arith in e)

-- Appending to the window of a history gives the window of the longer history.
pub append-last :
    (size : ℕ) (xs : List Bool) (o : Bool) → append size (last size xs) o ≡ last size (xs ++ o ∷ [])
unfolding append
append-last size xs o =
    let n = length xs - size in
    let joined : drop n xs ++ o ∷ [] ≡ drop n (xs ++ o ∷ []) =
      sym (drop-append n xs (o ∷ []) (omega arith)) in
    let sizes : n + (length (drop n xs ++ o ∷ []) - size) ≡ length (xs ++ o ∷ []) - size =
      omega
        (arith, length-append (drop n xs) (o ∷ []), length-append xs (o ∷ []), length-drop n xs) in
    ap (drop (length (drop n xs ++ o ∷ []) - size)) joined
    ∙ drop-drop (length (drop n xs ++ o ∷ []) - size) n (xs ++ o ∷ [])
    ∙ ap (λ k. drop k (xs ++ o ∷ [])) sizes

pub last-nil : (size : ℕ) → last size [] ≡ []
last-nil size = drop-nil (0 - size)

pub length-last-le : (size : ℕ) (xs : List Bool) → length (last size xs) ≤ size
length-last-le size xs = omega (arith, length-drop (length xs - size) xs)
