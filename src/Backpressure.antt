-- ===== src/Backpressure.antt =====
-- zerg/backpressure.py: failure rates per level over a sliding window of outcomes. The threshold,
-- a float in the source, is a fraction of two numbers, and rates are compared as fractions.
pub mod Window
pub mod History
pub mod Verdict
mod Tests
use zerg.Common.{
  ℕ, ◌+◌, ◌-◌, ◌*◌, Bool, true, false, not, Option, none, some, List, [], ◌∷◌, ◌++◌, leb, ltb,
  if◌then◌else◌, length, drop, count_if, nat_eq,
}
use zerg.Common.Dict.{Dict, lookup, insert, contains}

-- `deque(maxlen=size)`: an append to a full deque drops from the left.
unfoldable pub append : ℕ → List Bool → Bool → List Bool
append size outcomes o = let longer = outcomes ++ o ∷ [] in drop (length longer - size) longer

pub record LevelPressure : Type 0 where
  pub level : ℕ
  pub total_tasks : ℕ
  pub completed_tasks : ℕ
  pub failed_tasks : ℕ
  pub paused : Bool
  pub paused_at : Option ℕ
  pub recent_outcomes : List Bool

-- The window size also bounds the deque of each level, so it is kept once, in the controller.
pub record Controller : Type 0 where
  pub threshold_num : ℕ
  pub threshold_den : ℕ
  pub window_size : ℕ
  pub enabled : Bool
  pub levels : Dict ℕ LevelPressure

abbrev pub new_pressure : ℕ → ℕ → LevelPressure
new_pressure level total_tasks = record {
  level = level;
  total_tasks = total_tasks;
  completed_tasks = 0;
  failed_tasks = 0;
  paused = false;
  paused_at = none;
  recent_outcomes = [];
}

abbrev pub store : Controller → ℕ → LevelPressure → Controller
store b level p = record b { levels = insert level p b.levels }

unfoldable pub register_level : ℕ → ℕ → Controller → Controller
register_level level total_tasks b = store b level (new_pressure level total_tasks)

abbrev pub pressure_or_new : ℕ → Option LevelPressure → LevelPressure
pressure_or_new level none = new_pressure level 0
pressure_or_new level (some p) = p

-- `_get_or_create`
unfoldable pub get_or_create : ℕ → Controller → LevelPressure × Controller
get_or_create level b =
    let p = pressure_or_new level (lookup level b.levels) in
    (p, if contains level b.levels then b else store b level p)

unfoldable pub record_success : ℕ → Controller → Controller
record_success level b =
    if not b.enabled
    then b
    else let (p, b') = get_or_create level b in
      store b' level (record p {
        completed_tasks = p.completed_tasks + 1;
        recent_outcomes = append b.window_size p.recent_outcomes true;
      })

unfoldable pub record_failure : ℕ → Controller → Controller
record_failure level b =
    if not b.enabled
    then b
    else let (p, b') = get_or_create level b in
      store b' level (record p {
        failed_tasks = p.failed_tasks + 1;
        recent_outcomes = append b.window_size p.recent_outcomes false;
      })

-- `sum(1 for o in outcomes if not o)`
abbrev pub failures : List Bool → ℕ
failures = count_if not

-- `failures / len(outcomes) >= threshold`, multiplied out.
abbrev pub exceeds : ℕ → ℕ → List Bool → Bool
exceeds num den outcomes = leb (num * length outcomes) (failures outcomes * den)

unfoldable pub should_pause : ℕ → Controller → Bool × Controller
should_pause level b =
    if not b.enabled
    then (false, b)
    else let (p, b') = get_or_create level b in
      if p.paused
      then (false, b')
      else if ltb (length p.recent_outcomes) 3
      then (false, b')
      else (exceeds b.threshold_num b.threshold_den p.recent_outcomes, b')

unfoldable pub pause_level : ℕ → ℕ → Controller → Controller
pause_level level now b =
    let (p, b') = get_or_create level b in
    store b' level (record p { paused = true; paused_at = some now })

unfoldable pub resume_level : ℕ → Controller → Controller
resume_level level b =
    let (p, b') = get_or_create level b in
    store b' level (record p { paused = false; paused_at = none; recent_outcomes = [] })

abbrev pub paused_or_not : Option LevelPressure → Bool
paused_or_not none = false
paused_or_not (some p) = p.paused

unfoldable pub is_paused : ℕ → Controller → Bool
is_paused level b = paused_or_not (lookup level b.levels)

-- The failure rate as a numerator and a denominator; 0.0 is 0 over 1.
abbrev pub rate : List Bool → ℕ × ℕ
rate [] = (0, 1)
rate (o ∷ os) = (failures (o ∷ os), length (o ∷ os))

abbrev pub rate_or_zero : Option LevelPressure → ℕ × ℕ
rate_or_zero none = (0, 1)
rate_or_zero (some p) = rate p.recent_outcomes

unfoldable pub get_failure_rate : ℕ → Controller → ℕ × ℕ
get_failure_rate level b = rate_or_zero (lookup level b.levels)

-- `BackpressureController.__init__`
abbrev pub new_controller : ℕ → ℕ → ℕ → Bool → Controller
new_controller num den size enabled = record {
  threshold_num = num;
  threshold_den = den;
  window_size = size;
  enabled = enabled;
  levels = [];
}

-- The calls that change a level's pressure, `pause` with its clock reading.
pub data Event : Type 0 where
  registered : (level total_tasks : ℕ) → Event
  success : (level : ℕ) → Event
  failure : (level : ℕ) → Event
  asked : (level : ℕ) → Event
  pause : (level now : ℕ) → Event
  resume : (level : ℕ) → Event

unfoldable pub handle : Event → Controller → Controller
handle (registered l n) b = register_level l n b
handle (success l) b = record_success l b
handle (failure l) b = record_failure l b
handle (asked l) b = (should_pause l b).1
handle (pause l now) b = pause_level l now b
handle (resume l) b = resume_level l b

unfoldable pub run : List Event → Controller → Controller
run [] b = b
run (e ∷ es) b = run es (handle e b)
