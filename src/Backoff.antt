-- ===== src/Backoff.antt =====
-- zerg/retry_backoff.py. The source adds a random jitter of up to a tenth of the delay. Time is
-- counted in ticks, `10 * r` to a second for any `r`, and `random.uniform` is a parameter.
use zerg.Common.{
  ℕ, ◌+◌, ◌-◌, ap, ◌*◌, ◌^◌, ◌≤◌, ◌≡◌, Option, none, some, String, ◌==◌, string_eq, leb,
  if◌then◌else◌, arith,
}
use zerg.Common.Int.{
  ℤ, pos, negsuc, ◌+ℤ◌, ◌-ℤ◌, ◌≤ℤ◌, max_zero, pos_part, neg_part, +ℤ_parts, -ℤ_parts,
}

-- `random.uniform(a, b)`: some value between `a` and `b`, inclusive.
pub record Uniform : Type 0 where
  pub draw : ℤ → ℤ → ℤ
  pub lower : (a b : ℤ) → a ≤ℤ b → a ≤ℤ draw a b
  pub upper : (a b : ℤ) → a ≤ℤ b → draw a b ≤ℤ b

abbrev pub min : ℕ → ℕ → ℕ
min a b = if leb a b then a else b

-- The delay in seconds before the cap; `none` is the ValueError for an unknown strategy.
unfoldable pub raw_delay : ℕ → String → ℕ → Option ℕ
raw_delay attempt strategy base =
    if strategy == "exponential"
    then some (base * 2 ^ attempt)
    else if strategy == "linear"
    then some (base * attempt)
    else if strategy == "fixed"
    then some base
    else none

-- The delay in ticks.
unfoldable pub jittered : Uniform → ℕ → ℕ → ℤ
jittered u r delay =
    let jitter = pos (delay * r) in
    max_zero (pos (delay * (10 * r)) +ℤ u.draw (pos 0 -ℤ jitter) jitter)

unfoldable pub calculate_delay : Uniform → ℕ → ℕ → String → ℕ → ℕ → Option ℤ
calculate_delay u r attempt strategy base max = elim (raw_delay attempt strategy base) [
  | none ↦ none
  | some delay ↦ some (jittered u r (min delay max))
]

negate : (a : ℕ) → (pos_part (pos 0 -ℤ pos a) ≡ 0) × (neg_part (pos 0 -ℤ pos a) ≡ a)
unfolding ◌-ℤ◌
negate a = ground arith

ten_times : (d r : ℕ) → d * (10 * r) ≡ 10 * (d * r)
ten_times d r = omega arith

-- A whole with an error of at most `j` either way.
within :
    (j : ℕ) (x : ℤ)
    → (pos 0 -ℤ pos j) ≤ℤ x
    → x ≤ℤ pos j
    → (pos (9 * j) ≤ℤ max_zero (pos (10 * j) +ℤ x)) × (max_zero (pos (10 * j) +ℤ x) ≤ℤ pos (11 * j))
within j (pos n) h h' = ground (arith, -ℤ_parts (pos 0) (pos j), +ℤ_parts (pos (10 * j)) (pos n))
within j (negsuc n) h h' =
    ground (arith, -ℤ_parts (pos 0) (pos j), +ℤ_parts (pos (10 * j)) (negsuc n))

jittered_bounds :
    (u : Uniform) (r d : ℕ)
    → (pos (9 * (d * r)) ≤ℤ jittered u r d) × (jittered u r d ≤ℤ pos (11 * (d * r)))
unfolding jittered
jittered_bounds u r d =
    let j = d * r in
    let ordered : (pos 0 -ℤ pos j) ≤ℤ pos j = ground (arith, -ℤ_parts (pos 0) (pos j)) in
    let bound =
      within j (u.draw (pos 0 -ℤ pos j) (pos j)) (u.lower _ _ ordered) (u.upper _ _ ordered) in
    rw (ten_times d r) bound

*-le : (a b r : ℕ) → a ≤ b → a * r ≤ b * r
*-le a b r h =
    let split : b ≡ a + (b - a) = omega arith in
    let product : b * r ≡ (a + (b - a)) * r = ap (λ x. x * r) split in omega arith

min-le : (a b : ℕ) → min a b ≤ b
min-le a b = ground arith

-- Whatever is drawn, the delay stays within a tenth of the capped delay of its strategy.
pub calculate_delay_bounds :
    (u : Uniform) (r attempt base max delay : ℕ) (strategy : String) (result : ℤ)
    → raw_delay attempt strategy base ≡ some delay
    → calculate_delay u r attempt strategy base max ≡ some result
    → (pos (9 * (min delay max * r)) ≤ℤ result)
      × (result ≤ℤ pos (11 * (min delay max * r)))
      × (result ≤ℤ pos (11 * (max * r)))
unfolding calculate_delay
calculate_delay_bounds u r attempt base max delay strategy result h e =
    let bound = jittered_bounds u r (min delay max) in
    ground (arith, bound, *-le (min delay max) max r (min-le delay max))
