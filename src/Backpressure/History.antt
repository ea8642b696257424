-- ===== src/Backpressure/History.antt =====
-- What a level's pressure is, told from the whole history of calls without any window.
use zerg.Common.{
  ℕ, ◌+◌, ◌≡◌, refl, Bool, true, false, none, some, List, [], ◌∷◌, ◌++◌, ◌==◌, arith, if◌then◌else◌,
  nat_eq, foldl, sym, subst, Bool-cases, inl, inr, nat_beq_iff, ◌∙◌,
}
use zerg.Common.Dict.{lookup, lookup-insert}
use zerg.Backpressure.{
  append, LevelPressure, Controller, new_pressure, store, register_level, get_or_create,
  pressure_or_new, record_success, record_failure, should_pause, pause_level, resume_level, Event,
  registered, success, failure, asked, pause, resume, handle, run,
}
use zerg.Backpressure.Window.{last, last-nil, append-last}

-- A level as its history tells it: every outcome since it was last registered or resumed, the
-- counts since it was registered, and whether its last pause is still in force.
pub record Level : Type 0 where
  pub paused : Bool
  pub completed : ℕ
  pub failed : ℕ
  pub outcomes : List Bool

abbrev pub unseen : Level
unseen = record { paused = false; completed = 0; failed = 0; outcomes = [] }

-- One call, told for level `l`.
abbrev pub tell : ℕ → Level → Event → Level
tell l v (registered k n) = if k == l then unseen else v
tell l v (success k) =
    if k == l
    then record v { completed = v.completed + 1; outcomes = v.outcomes ++ true ∷ [] }
    else v
tell l v (failure k) =
    if k == l then record v { failed = v.failed + 1; outcomes = v.outcomes ++ false ∷ [] } else v
tell l v (asked k) = v
tell l v (pause k now) = if k == l then record v { paused = true } else v
tell l v (resume k) = if k == l then record v { paused = false; outcomes = [] } else v

abbrev pub history : ℕ → List Event → Level
history l = foldl (tell l) unseen

-- The stored pressure agrees with the history; of the outcomes it keeps the last `size`.
pub record Shows (size : ℕ) (p : LevelPressure) (v : Level) : Type 0 where
  pub paused : p.paused ≡ v.paused
  pub completed : p.completed_tasks ≡ v.completed
  pub failed : p.failed_tasks ≡ v.failed
  pub window : p.recent_outcomes ≡ last size v.outcomes

get_or_create_other :
    (k l : ℕ) (b : Controller)
    → (k == l) ≡ false
    → lookup l (get_or_create k b).1.levels ≡ lookup l b.levels
unfolding get_or_create
get_or_create_other k l b h =
    ground (arith, lookup-insert k l (pressure_or_new k (lookup k b.levels)) b.levels)

-- The pressure of a level after a call, from its pressure before.
abbrev change : Event → ℕ → LevelPressure → LevelPressure
change (registered k n) size p = new_pressure k n
change (success k) size p = record p {
  completed_tasks = p.completed_tasks + 1;
  recent_outcomes = append size p.recent_outcomes true;
}
change (failure k) size p = record p {
  failed_tasks = p.failed_tasks + 1;
  recent_outcomes = append size p.recent_outcomes false;
}
change (asked k) size p = p
change (pause k now) size p = record p { paused = true; paused_at = some now }
change (resume k) size p = record p { paused = false; paused_at = none; recent_outcomes = [] }

abbrev level_of : Event → ℕ
level_of (registered k n) = k
level_of (success k) = k
level_of (failure k) = k
level_of (asked k) = k
level_of (pause k now) = k
level_of (resume k) = k

-- The pressure that a call on level `l` starts from.
unfoldable pub seen : ℕ → Controller → LevelPressure
seen l b = pressure_or_new l (lookup l b.levels)

replaced :
    (k l : ℕ) (p : LevelPressure) (b : Controller)
    → seen l (store (get_or_create k b).1 k p) ≡ (if k == l then p else seen l b)
unfolding seen
replaced k l p b =
    ground (arith, get_or_create_other k l b, lookup-insert k l p (get_or_create k b).1.levels)

pub returned : (k : ℕ) (b : Controller) → (get_or_create k b).0 ≡ seen k b
unfolding get_or_create seen
returned k b = refl

asked_seen : (k l : ℕ) (b : Controller) → seen l (get_or_create k b).1 ≡ seen l b
unfolding get_or_create seen
asked_seen k l b =
    ground
      (arith, lookup-insert k l (pressure_or_new k (lookup k b.levels)) b.levels, nat_beq_iff k l)

seen-handle :
    (e : Event) (b : Controller) (l : ℕ)
    → b.enabled ≡ true
    → seen l (handle e b)
      ≡ (if level_of e == l then change e b.window_size (seen (level_of e) b) else seen l b)
unfolding handle register_level record_success record_failure pause_level resume_level should_pause
seen-handle (registered k n) b l on =
    unfold seen in ground (arith, lookup-insert k l (new_pressure k n) b.levels)
seen-handle (success k) b l on =
    ground (arith, returned k b, replaced k l (change (success k) b.window_size (seen k b)) b)
seen-handle (failure k) b l on =
    ground (arith, returned k b, replaced k l (change (failure k) b.window_size (seen k b)) b)
seen-handle (asked k) b l on = ground (arith, asked_seen k l b, nat_beq_iff k l)
seen-handle (pause k now) b l on =
    rw (returned k b) (replaced k l (change (pause k now) b.window_size (seen k b)) b)
seen-handle (resume k) b l on =
    rw (returned k b) (replaced k l (change (resume k) b.window_size (seen k b)) b)

change-Shows :
    (e : Event) (size l : ℕ) (p : LevelPressure) (v : Level)
    → Shows size p v
    → (level_of e == l) ≡ true
    → Shows size (change e size p) (tell l v e)
change-Shows (registered k n) size l p v h e = ground (arith, last-nil size)
change-Shows (success k) size l p v h e = ground (arith, append-last size v.outcomes true)
change-Shows (failure k) size l p v h e = ground (arith, append-last size v.outcomes false)
change-Shows (asked k) size l p v h e = h
change-Shows (pause k now) size l p v h e = ground arith
change-Shows (resume k) size l p v h e = ground arith

tell_other : (e : Event) (l : ℕ) (v : Level) → (level_of e == l) ≡ false → tell l v e ≡ v
tell_other (registered k n) l v e = rw e
tell_other (success k) l v e = rw e
tell_other (failure k) l v e = rw e
tell_other (asked k) l v e = refl
tell_other (pause k now) l v e = rw e
tell_other (resume k) l v e = rw e

handle_config :
    (e : Event) (b : Controller)
    → ((handle e b).enabled ≡ b.enabled)
      × ((handle e b).window_size ≡ b.window_size)
      × ((handle e b).threshold_num ≡ b.threshold_num)
      × ((handle e b).threshold_den ≡ b.threshold_den)
unfolding handle register_level record_success record_failure pause_level resume_level should_pause
    get_or_create
handle_config (registered k n) b = (refl, refl, refl, refl)
handle_config (success k) b = ground arith
handle_config (failure k) b = ground arith
handle_config (asked k) b = ground arith
handle_config (pause k now) b = ground arith
handle_config (resume k) b = ground arith

handle-Shows :
    (e : Event) (b : Controller) (l : ℕ) (v : Level)
    → b.enabled ≡ true
    → Shows b.window_size (seen l b) v
    → Shows b.window_size (seen l (handle e b)) (tell l v e)
handle-Shows e b l v on h = elim (Bool-cases (level_of e == l)) [
  | inl same ↦
      let k : level_of e ≡ l = (nat_beq_iff (level_of e) l).0 same in
      rw (seen-handle e b l on, same, k) (change-Shows e b.window_size l (seen l b) v h same)
  | inr other ↦ rw (seen-handle e b l on, other, tell_other e l v other) h
]

pub run-Shows :
    (es : List Event) (b : Controller) (l : ℕ) (v : Level)
    → b.enabled ≡ true
    → Shows b.window_size (seen l b) v
    → Shows b.window_size (seen l (run es b)) (foldl (tell l) v es)
      × ((run es b).enabled ≡ b.enabled)
      × ((run es b).window_size ≡ b.window_size)
      × ((run es b).threshold_num ≡ b.threshold_num)
      × ((run es b).threshold_den ≡ b.threshold_den)
unfolding run
run-Shows [] b l v on h = (h, refl, refl, refl, refl)
run-Shows (e ∷ es) b l v on h =
    let c = handle_config e b in
    let rest = run-Shows es (handle e b) l (tell l v e) (c.0 ∙ on) (
      subst (λ k. Shows k (seen l (handle e b)) (tell l v e)) (sym c.1)
        (handle-Shows e b l v on h)) in
    (
      subst (λ k. Shows k (seen l (run es (handle e b))) (foldl (tell l) (tell l v e) es)) c.1
          rest.0,
      rest.1 ∙ c.0,
      rest.2 ∙ c.1,
      rest.3 ∙ c.2,
      rest.4 ∙ c.3,
    )
