-- ===== src/Retries/Verify.antt =====
-- `verify_with_retry` of zerg/task_retry_manager.py. What the verifier answers to each attempt is a
-- parameter; the pause between two attempts changes nothing.
use zerg.Common.{
  ℕ, zero, suc, ◌+◌, ◌≤◌, ◌<◌, ◌≡◌, refl, sym, Bool, true, false, Option, none, if◌then◌else◌,
  get_or, arith,
}

-- The attempts from number `attempt` on: whether one passed, and how many were made.
unfoldable pub attempts : (ℕ → Bool) → ℕ → ℕ → Bool × ℕ
attempts verify attempt zero = (false, 0)
attempts verify attempt (suc n) =
    let (passed, made) = attempts verify (attempt + 1) n in
    if verify attempt then (true, 1) else (passed, 1 + made)

unfoldable pub verify_with_retry : (ℕ → Bool) → Option ℕ → ℕ → Bool × ℕ
verify_with_retry verify max_retries max_retry_attempts =
    attempts verify 0 (get_or max_retries max_retry_attempts + 1)

-- An equation about one number is one about an equal number.
module _ (verify : ℕ → Bool) where
  at_equal : {b : Bool} (m n : ℕ) → m ≡ n → verify m ≡ b → verify n ≡ b
  at_equal m n e h = rw (sym e) h

  -- The attempts after the first, counted from the second.
  later :
      (n from : ℕ)
      → ((j : ℕ) → j < suc n → verify (from + j) ≡ false)
      → (j : ℕ) → j < n
      → verify (from + 1 + j) ≡ false
  later n from fails j k =
      at_equal (from + suc j) (from + 1 + j) (omega arith) (fails (suc j) (omega arith))

  here : {b : Bool} (from : ℕ) → verify (from + 0) ≡ b → verify from ≡ b
  here from h = at_equal (from + 0) from (omega arith) h

attempts_first :
    (verify : ℕ → Bool) (n from i : ℕ)
    → i < n
    → ((j : ℕ) → j < i → verify (from + j) ≡ false)
    → verify (from + i) ≡ true
    → attempts verify from n ≡ (true, i + 1)
unfolding attempts
attempts_first verify zero from i h before now = ground arith
attempts_first verify (suc n) from zero h before now = ground (arith, here verify from now)
attempts_first verify (suc n) from (suc i) h before now =
    let now' = at_equal verify (from + suc i) (from + 1 + i) (omega arith) now in
    let rest =
      attempts_first verify n (from + 1) i (omega arith) (later verify i from before) now' in
    ground (arith, rest, here verify from (before 0 (omega arith)))

attempts_none :
    (verify : ℕ → Bool) (n from : ℕ)
    → ((j : ℕ) → j < n → verify (from + j) ≡ false)
    → attempts verify from n ≡ (false, n)
unfolding attempts
attempts_none verify zero from fails = refl
attempts_none verify (suc n) from fails =
    let rest = attempts_none verify n (from + 1) (later verify n from fails) in
    ground (arith, rest, here verify from (fails 0 (omega arith)))

-- If attempt `i` is the first that passes, counted from 0, and at most `max` retries are allowed
-- before it, the verification answers yes after `i + 1` runs of the verifier.
pub verify_with_retry_passes :
    (verify : ℕ → Bool) (max i : ℕ)
    → i ≤ max
    → ((j : ℕ) → j < i → verify j ≡ false)
    → verify i ≡ true
    → verify_with_retry verify none max ≡ (true, i + 1)
unfolding verify_with_retry
verify_with_retry_passes verify max i h fails now =
    attempts_first verify (max + 1) 0 i (omega arith)
      (λ j k. at_equal verify j (0 + j) (omega arith) (fails j k))
      (at_equal verify i (0 + i) (omega arith) now)

-- If the first attempt and all `max` retries fail, the verification answers no after `max + 1` runs
-- of the verifier.
pub verify_with_retry_fails :
    (verify : ℕ → Bool) (max : ℕ)
    → ((j : ℕ) → j ≤ max → verify j ≡ false)
    → verify_with_retry verify none max ≡ (false, max + 1)
unfolding verify_with_retry
verify_with_retry_fails verify max fails =
    attempts_none verify (max + 1) 0
      (λ j k. at_equal verify j (0 + j) (omega arith) (fails j (omega arith)))
