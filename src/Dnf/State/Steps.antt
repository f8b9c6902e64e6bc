-- ===== src/Dnf/State/Steps.antt =====
-- The steps of a task: how many there are and what they weigh, the child of a step, and the end of a step.
use libhif.Base.{
  ℕ, ◌+◌, ◌-◌, ◌%◌, ◌^◌, Bool, true, false, not, none, some, List, [], ◌∷◌, ◌==◌, leb,
  if◌then◌else◌, length, get_or,
}
use libhif.Dnf.Lock.{System}
use libhif.Dnf.State.{State, init, set_allow_cancel, Floating, discrete_to_percent}
use libhif.Dnf.State.Progress.{
  Failure, cancelled, no_size, already_at_100, not_100, steps_not_set, Task, set_states, finalize,
  reset_child, set_percentage,
}

-- success, or an error
pub data Result : Type 0 where
  success : Result
  failed : Failure → Result

-- the sum of the values, as guint, and what it is after each
unfoldable pub sum_from : ℕ → List ℕ → ℕ
sum_from total [] = total
sum_from total (value ∷ values) = sum_from ((total + value) % 2 ^ 32) values

unfoldable pub sums_from : ℕ → List ℕ → List ℕ
sums_from total [] = []
sums_from total (value ∷ values) =
    (total + value) % 2 ^ 32 ∷ sums_from ((total + value) % 2 ^ 32) values

unfoldable pub set_number_steps : ℕ → State → State × Bool
set_number_steps steps state =
    if steps == 0
    then (state, true)
    else if not state.report_progress
    then (state, true)
    else if not (state.steps == 0)
    then (state, false)
    else (record state { steps = steps }, true)

-- dnf_state_set_steps_real of a value and the ones behind it, as guint
unfoldable pub set_steps : ℕ → List ℕ → State → State × Result
set_steps value values state =
    let (state', is_set) = set_number_steps (length values + 1) state in
    if not state.report_progress
    then (state, success)
    else if not (sum_from value values == 100)
    then (state, failed not_100)
    else if not is_set
    then (state', failed steps_not_set)
    else (record state' { step_data = some (value ∷ sums_from value values) }, success)

-- dnf_state_check
unfoldable pub check : (ℕ → Bool) → State → Bool
check is_cancelled state = elim state.cancellable [ none ↦ true | some c ↦ not (is_cancelled c) ]

-- the percentage of the steps that are done
unfoldable pub step_percentage : {F : Type 0} → Floating F → State → ℕ
step_percentage floating state = elim state.step_data [
  | none ↦ floating.truncate (discrete_to_percent floating state.current state.steps)
  | some step_data ↦ get_or step_data (state.current - 1) 0
]

module _ {W : Type 0} (system : System W) (self : ℕ) where
  -- dnf_state_get_child, with the cancellable that it makes if there is none; to_child goes to the child
  unfoldable pub get_child : ℕ → Task W → Task W
  get_child new_cancellable task =
      let cancellable : ℕ = elim task.state.cancellable [ none ↦ new_cancellable | some c ↦ c ] in
      let child : State = record init {
        action = task.state.action;
        cancellable = some cancellable;
      } in
      if not task.state.report_progress then task else record task {
        locks = finalize system self (length task.below) task.below task.locks;
        state = record task.state {
          child_action = task.state.action;
          cancellable = some cancellable;
        };
        below = child ∷ [];
      }

  module _ {F : Type 0} (floating : Floating F) where
    -- dnf_state_done_real behind its tests
    unfoldable pub step_done : Task W → Task W
    step_done task =
        let allowed = set_states task (set_allow_cancel true task.state task.above) in
        let state = record allowed.state { current = (allowed.state.current + 1) % 2 ^ 32 } in
        reset_child system self (
          (set_percentage system self floating (step_percentage floating state)
            (record allowed { state = state })).0)

  module _ {F : Type 0} (floating : Floating F) (is_cancelled : ℕ → Bool) where
    unfoldable pub done : Task W → Task W × Result
    done task =
        if not (check is_cancelled task.state)
        then (task, failed cancelled)
        else if not task.state.report_progress
        then (task, success)
        else if task.state.steps == 0
        then (task, failed no_size)
        else if leb task.state.steps task.state.current
        then (task, failed already_at_100)
        else (step_done floating task, success)

    -- dnf_state_finished_real
    unfoldable pub finished : Task W → Task W × Result
    finished task =
        let all = record task { state = record task.state { current = task.state.steps } } in
        if not (check is_cancelled task.state)
        then (task, failed cancelled)
        else if task.state.current == task.state.steps
        then (task, success)
        else ((set_percentage system self floating 100 all).0, success)
