-- ===== src/Dnf/State.antt =====
-- dnf-4/libdnf/dnf-state.cpp, the progress of a task and its sub-tasks: the fields of a DnfState, the signals
-- that its child sends, and the percentages. An action is the value of its enumeration, guint wraps at 2 ^ 32;
-- the arithmetic of floats is a parameter. Profiling and the signals to other observers are left out.
pub mod Progress
pub mod Steps
pub mod Rises
pub mod Interpolation
pub mod Weights
pub mod Operations
mod Tests
use libhif.Base.{
  ℕ, zero, suc, ◌+◌, ◌-◌, ◌*◌, ◌/◌, ◌%◌, ◌^◌, Bool, true, false, not, ◌&&◌, Option, none, some,
  List, [], ◌∷◌, Bytes, bytes_eq, ◌==◌, ltb, leb, if◌then◌else◌, get_or, take,
}

abbrev pub unknown : ℕ
unknown = 0

pub record State : Type 0 where
  pub allow_cancel : Bool
  pub allow_cancel_changed_state : Bool
  pub allow_cancel_child : Bool
  pub report_progress : Bool
  -- an address
  pub cancellable : Option ℕ
  pub action_hint : Option Bytes
  pub speed : ℕ
  pub speed_data : List ℕ
  pub current : ℕ
  pub last_percentage : ℕ
  pub step_data : Option (List ℕ)
  pub steps : ℕ
  pub action : ℕ
  pub last_action : ℕ
  pub child_action : ℕ
  pub lock_ids : List ℕ

-- dnf_state_init
abbrev pub init : State
init = record {
  allow_cancel = true;
  allow_cancel_changed_state = false;
  allow_cancel_child = true;
  report_progress = true;
  cancellable = none;
  action_hint = none;
  speed = 0;
  speed_data = 0 ∷ 0 ∷ 0 ∷ 0 ∷ 0 ∷ [];
  current = 0;
  last_percentage = 0;
  step_data = none;
  steps = 0;
  action = unknown;
  last_action = unknown;
  child_action = unknown;
  lock_ids = [];
}

-- The functions below take a state and its parents, the nearest first, and give what a signal makes of them.

-- dnf_state_child_allow_cancel_changed_cb, of all parents
unfoldable pub child_allow_cancel_changed : Bool → List State → List State
child_allow_cancel_changed allow_cancel [] = []
child_allow_cancel_changed allow_cancel (parent ∷ above) =
    record parent { allow_cancel_child = allow_cancel }
    ∷ child_allow_cancel_changed (parent.allow_cancel && allow_cancel) above

unfoldable pub set_allow_cancel : Bool → State → List State → State × List State
set_allow_cancel allow_cancel state above =
    let state' = record state { allow_cancel_changed_state = true; allow_cancel = allow_cancel } in
    if same_bool state.allow_cancel allow_cancel
    then (record state { allow_cancel_changed_state = true }, above)
    else (state', child_allow_cancel_changed (allow_cancel && state.allow_cancel_child) above)
  where
    same_bool : Bool → Bool → Bool
    same_bool true b = b
    same_bool false b = not b

-- dnf_state_child_action_changed_cb, of all parents
unfoldable pub child_action_changed : ℕ → List State → List State
child_action_changed action [] = []
child_action_changed action (parent ∷ above) =
    record parent { action = action } ∷ child_action_changed action above

-- g_strcmp0
abbrev pub same_hint : Option Bytes → Option Bytes → Bool
same_hint none none = true
same_hint (some a) (some b) = bytes_eq a b
same_hint _ _ = false

unfoldable pub action_start : ℕ → Option Bytes → State → List State → (State × List State) × Bool
action_start action hint state above =
    if action == unknown
    then ((state, above), false)
    else if (state.action == action) && same_hint hint state.action_hint
    then ((state, above), false)
    else (
      (
        record state { last_action = state.action; action_hint = hint; action = action },
        child_action_changed action above,
      ),
      true,
    )

unfoldable pub action_stop : State → List State → (State × List State) × Bool
action_stop state above = if state.action == unknown then ((state, above), false) else (
  (
    record state { action = state.last_action; last_action = unknown; action_hint = none },
    child_action_changed state.last_action above,
  ),
  true,
)

-- dnf_state_child_notify_speed_cb, of all parents
unfoldable pub child_notify_speed : ℕ → List State → List State
child_notify_speed speed [] = []
child_notify_speed speed (parent ∷ above) =
    let above' = child_notify_speed speed above in
    if parent.speed == speed then parent ∷ above else record parent { speed = speed } ∷ above'

unfoldable pub set_speed_internal : ℕ → State → List State → State × List State
set_speed_internal speed state above =
    if state.speed == speed
    then (state, above)
    else (record state { speed = speed }, child_notify_speed speed above)

-- the loop of dnf_state_set_speed: the sum of the speeds that are not 0, and their number
unfoldable pub add_speeds : List ℕ → ℕ → ℕ → ℕ × ℕ
add_speeds [] sum sum_cnt = (sum, sum_cnt)
add_speeds (speed ∷ speeds) sum sum_cnt =
    if ltb 0 speed
    then add_speeds speeds ((sum + speed) % 2 ^ 64) (sum_cnt + 1)
    else add_speeds speeds sum sum_cnt

unfoldable pub set_speed : ℕ → State → List State → State × List State
set_speed speed state above =
    let speed_data = speed ∷ take 4 state.speed_data in
    let (sum, sum_cnt) = add_speeds speed_data 0 0 in
    set_speed_internal (if ltb 0 sum_cnt then sum / sum_cnt else sum)
      (record state { speed_data = speed_data }) above

-- dnf_state_child_percentage_changed_cb with weights: the percentage to set
unfoldable pub weighted_percentage : ℕ → ℕ → List ℕ → ℕ
weighted_percentage percentage zero step_data = (percentage * get_or step_data 0 0) % 2 ^ 32 / 100
weighted_percentage percentage (suc before) step_data =
    (((100 + 2 ^ 32 - percentage) % 2 ^ 32 * get_or step_data before 0) % 2 ^ 32
      + (percentage * get_or step_data (suc before) 0) % 2 ^ 32)
    % 2 ^ 32
    / 100

-- the arithmetic of double and float; a float is a double
pub record Floating (F : Type 0) : Type 0 where
  pub of_guint : ℕ → F
  pub narrow : F → F
  pub hundredth : F
  pub add_float : F → F → F
  pub sub_float : F → F → F
  pub mul_float : F → F → F
  pub div_float : F → F → F
  pub mul : F → F → F
  pub div : F → F → F
  pub less : F → F → Bool
  -- the conversion to guint
  pub truncate : F → ℕ

module _ {F : Type 0} (floating : Floating F) where
  unfoldable pub discrete_to_percent : ℕ → ℕ → F
  discrete_to_percent discrete steps =
      if ltb steps discrete
      then floating.narrow (floating.of_guint 100)
      else if steps == 0
      then floating.narrow (floating.of_guint 0)
      else floating.narrow (
          floating.mul (floating.of_guint discrete)
            (floating.div (floating.of_guint 100) (floating.of_guint steps)))

  -- dnf_state_child_percentage_changed_cb with equal steps: the state, and the percentage to set
  unfoldable pub equal_steps_percentage : ℕ → State → State × Option ℕ
  equal_steps_percentage percentage state =
      let offset = discrete_to_percent state.current state.steps in
      let range = floating.sub_float (discrete_to_percent (state.current + 1) state.steps) offset in
      let state' =
        if percentage == 100 then record state { last_action = state.child_action } else state in
      let extra =
        floating.mul_float
          (floating.div_float (floating.narrow (floating.of_guint percentage))
            (floating.narrow (floating.of_guint 100)))
          range in
      if floating.less range floating.hundredth
      then (state, none)
      else (state', some (floating.truncate (floating.add_float offset extra)))

  -- dnf_state_child_percentage_changed_cb up to dnf_state_set_percentage
  unfoldable pub child_percentage_changed : ℕ → State → State × Option ℕ
  child_percentage_changed percentage state =
      if state.steps == 1
      then (state, some percentage)
      else if state.steps == 0
      then (state, none)
      else if leb state.steps state.current
      then (state, none)
      else elim state.step_data [
        | some step_data ↦ (state, some (weighted_percentage percentage state.current step_data))
        | none ↦ equal_steps_percentage percentage state
      ]
