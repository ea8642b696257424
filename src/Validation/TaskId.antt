-- ===== src/Validation/TaskId.antt =====
-- `validate_task_id` and `sanitize_task_id` of zerg/validation.py. A string is the list of its code
-- points, and a regular expression is the test that it stands for.
use zerg.Common.{
  ℕ, zero, suc, ◌≡◌, ◌∙◌, refl, sym, ap, Bool, true, false, not, ◌&&◌, ◌||◌, Option, none, some,
  List, [], ◌∷◌, ◌==◌, nat_eq, leb, ltb, if◌then◌else◌, length, take, map, all, elem, arith,
  Bool-cases, inl, inr,
}

pub data TaskIdError : Type 0 where
  empty : TaskIdError
  too_long : (chars : ℕ) → TaskIdError
  dangerous : TaskIdError
  no_match : TaskIdError

-- `;|&` and the backquote, `$(){}[]<>`, the backslash, both quotes, newline, return and tab.
abbrev pub dangerous_chars : List ℕ
dangerous_chars =
    59 ∷ 124 ∷ 38 ∷ 96 ∷ 36 ∷ 40 ∷ 41 ∷ 123 ∷ 125 ∷ 91 ∷ 93 ∷ 60 ∷ 62 ∷ 92 ∷ 34 ∷ 39 ∷ 10 ∷ 13 ∷ 9
    ∷ []

abbrev pub between : ℕ → ℕ → ℕ → Bool
between lo hi c = leb lo c && leb c hi

abbrev pub is_upper : ℕ → Bool
is_upper = between 65 90

abbrev pub is_digit : ℕ → Bool
is_digit = between 48 57

abbrev pub is_alpha : ℕ → Bool
is_alpha c = is_upper c || between 97 122 c

-- `[A-Za-z0-9_-]`
abbrev pub is_word : ℕ → Bool
is_word c = is_alpha c || is_digit c || c == 95 || c == 45

abbrev pub last_is : (ℕ → Bool) → List ℕ → Bool
last_is p [] = false
last_is p (c ∷ []) = p c
last_is p (c ∷ d ∷ cs) = last_is p (d ∷ cs)

abbrev pub first_is : (ℕ → Bool) → List ℕ → Bool
first_is p [] = false
first_is p (c ∷ cs) = p c

-- `[A-Z][A-Z0-9_-]*[0-9]+`
abbrev pub matches_strict : List ℕ → Bool
matches_strict [] = false
matches_strict (c ∷ cs) =
    is_upper c
    && all (λ d. is_upper d || is_digit d || d == 95 || d == 45) cs
    && last_is is_digit cs

-- `[A-Za-z][A-Za-z0-9_-]{0,63}`
abbrev pub matches_relaxed : List ℕ → Bool
matches_relaxed [] = false
matches_relaxed (c ∷ cs) = is_alpha c && all is_word cs && leb (length cs) 63

abbrev pub matches : Bool → List ℕ → Bool
matches strict s = if strict then matches_strict s else matches_relaxed s

-- The error, or `none` for a valid ID.
unfoldable pub validate_task_id : List ℕ → Bool → Option TaskIdError
validate_task_id [] strict = some empty
validate_task_id (c ∷ cs) strict =
    if ltb 64 (length (c ∷ cs))
    then some (too_long (length (c ∷ cs)))
    else if not (all (λ d. not (elem d dangerous_chars)) (c ∷ cs))
    then some dangerous
    else if not (matches strict (c ∷ cs))
    then some no_match
    else none

-- "unknown"
abbrev pub unknown : List ℕ
unknown = 117 ∷ 110 ∷ 107 ∷ 110 ∷ 111 ∷ 119 ∷ 110 ∷ []

abbrev pub replaced : ℕ → ℕ
replaced c = if is_word c then c else 95

-- "T" before an ID that starts with no letter.
abbrev pub lettered : List ℕ → List ℕ
lettered [] = unknown
lettered (c ∷ cs) = if is_alpha c then c ∷ cs else 84 ∷ c ∷ cs

unfoldable pub sanitize_task_id : List ℕ → List ℕ
sanitize_task_id [] = unknown
sanitize_task_id (c ∷ cs) = lettered (take 64 (map replaced (c ∷ cs)))

is_word-replaced : (c : ℕ) → is_word (replaced c) ≡ true
is_word-replaced c = ground arith

safe_of_word : (c : ℕ) → is_word c ≡ true → elem c dangerous_chars ≡ false
safe_of_word c h = ground arith

-- What the sanitized characters are, up to `n` of them.
sanitized_chars :
    (n : ℕ) (cs : List ℕ)
    → let r = take n (map replaced cs) in
      (all is_word r ≡ true) × (length r ≡ (if leb n (length cs) then n else length cs))
sanitized_chars zero cs = ground arith
sanitized_chars (suc n) [] = ground arith
sanitized_chars (suc n) (c ∷ cs) = ground (arith, is_word-replaced c, sanitized_chars n cs)

safe_of_words :
    (cs : List ℕ) → all is_word cs ≡ true → all (λ d. not (elem d dangerous_chars)) cs ≡ true
safe_of_words [] h = refl
safe_of_words (c ∷ cs) h =
    let here = safe_of_word c (ground arith) in
    let there = safe_of_words cs (ground arith) in rw (here, there) refl

if_again {ℓ} :
    {A : Type ℓ} (b : Bool) (x y z : A)
    → (if b then x else if not (not b) then y else z) ≡ (if b then x else z)
if_again true x y z = refl
if_again false x y z = refl

-- An ID of a letter and word characters is valid unless it is too long.
validate_words :
    (c : ℕ) (cs : List ℕ)
    → is_alpha c ≡ true
    → all is_word cs ≡ true
    → validate_task_id (c ∷ cs) false
      ≡ (if ltb 64 (suc (length cs)) then some (too_long (suc (length cs))) else none)
unfolding validate_task_id
validate_words c cs h w =
    let letter : is_word c ≡ true = rw h refl in
    let safe = safe_of_words (c ∷ cs) (rw letter w) in
    let short : not (ltb 64 (suc (length cs))) ≡ leb (length cs) 63 = ground arith in
    rw (safe, h, w, sym short) (if_again (ltb 64 (suc (length cs))) _ _ _)

-- The verdict on `m` characters after the first, or after the "T", of an ID with `n` after its first.
kept_size :
    (m n : ℕ)
    → m ≡ (if leb 63 n then 63 else n)
    → (if ltb 64 (suc m) then some (too_long (suc m)) else none)
      ≡ (if leb 64 (suc n) && false then some (too_long 65) else none)
kept_size m n h = ground arith

grown_size :
    (m n : ℕ)
    → m ≡ (if leb 63 n then 63 else n)
    → (if ltb 64 (suc (suc m)) then some (too_long (suc (suc m))) else none)
      ≡ (if leb 64 (suc n) && true then some (too_long 65) else none)
grown_size m n h = ground arith

-- A sanitized ID is valid for `validate_task_id`, except that an ID of 64 characters or more that
-- starts with no letter becomes one of 65 characters, which is too long.
pub sanitize_task_id_valid :
    (s : List ℕ)
    → validate_task_id (sanitize_task_id s) false
      ≡ (if leb 64 (length s) && not (first_is is_alpha s) then some (too_long 65) else none)
unfolding sanitize_task_id
sanitize_task_id_valid [] = unfold validate_task_id in refl
sanitize_task_id_valid (c ∷ cs) = elim (Bool-cases (is_alpha c)) [
  | inl letter ↦
      let kept : replaced c ≡ c = ground arith in
      let (words, size) = sanitized_chars 63 cs in
      rw (kept, letter)
        (validate_words c (take 63 (map replaced cs)) letter words ∙ kept_size _ _ size)
  | inr other ↦
      let still : is_alpha (replaced c) ≡ false = ground arith in
      let (words, size) = sanitized_chars 63 cs in
      let all_words : all is_word (replaced c ∷ take 63 (map replaced cs)) ≡ true =
        rw (is_word-replaced c, words) refl in
      let verdict =
        validate_words 84 (replaced c ∷ take 63 (map replaced cs)) refl all_words
        ∙ grown_size _ (length cs) size
        ∙ ap (λ b. if leb 64 (suc (length cs)) && not b then some (too_long 65) else none)
            (sym other) in
      rw still verdict
]
