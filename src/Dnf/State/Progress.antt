-- ===== src/Dnf/State/Progress.antt =====
-- dnf_state_set_percentage with what it calls: the locks of Dnf.Lock that a state holds, and the parents that
-- hear of the percentage; the steps of a task, its children, and how it is done.
use libhif.Base.{
  ℕ, zero, suc, Bool, true, false, not, none, some, List, [], ◌∷◌, ◌++◌, ◌==◌, ltb, if◌then◌else◌,
  length,
}
use libhif.Dnf.Lock.{
  LockType, LockMode, System, Lock, Taken, taken, refused, Released, released, kept,
}
use libhif.Dnf.Lock as lock
use libhif.Dnf.State.{
  State, unknown, set_allow_cancel, action_stop, set_speed_internal, Floating,
  child_percentage_changed,
}

pub data Failure : Type 0 where
  cancelled no_size already_at_100 not_100 steps_not_set : Failure

-- a state with its child and the child's child, and so on, its parents, the nearest first, and the locks,
-- which all of them share
pub record Task (W : Type 0) : Type 0 where
  pub below : List State
  pub state : State
  pub above : List State
  pub locks : Lock W

module _ {W : Type 0} where
  -- the same states, seen from the child
  unfoldable pub to_child : Task W → Task W
  to_child task = elim task.below as (λ b. Task W) [
    | [] ↦ task
    | state ∷ below ↦ record task { below = below; state = state; above = task.state ∷ task.above }
  ]

  -- what is done to a state and its parents
  abbrev pub set_states : Task W → State × List State → Task W
  set_states task (state, above) = record task { state = state; above = above }

  module _ (system : System W) (self : ℕ) where
    unfoldable pub take_lock : LockType → LockMode → Task W → Task W × Bool
    take_lock lock_type lock_mode task =
        let (locks, result) = lock.take system self lock_type lock_mode task.locks in
        elim result as (λ r. Task W × Bool) [
          | refused error ↦ (record task { locks = locks }, false)
          | taken lock_id ↦
              let state = record task.state { lock_ids = task.state.lock_ids ++ (lock_id ∷ []) } in
              (record task { locks = locks; state = state }, true)
        ]

    -- the loop of dnf_state_release_locks
    unfoldable pub release_ids : List ℕ → Lock W → Lock W × Bool
    release_ids [] locks = (locks, true)
    release_ids (lock_id ∷ lock_ids) locks =
        let (locks', result) = lock.release system self lock_id locks in
        let rest = release_ids lock_ids locks' in
        elim result as (λ r. Lock W × Bool) [ released ↦ rest | kept error ↦ (locks', false) ]

    -- dnf_state_release_locks of a state without a child
    unfoldable pub release_own : State → Lock W → (State × Lock W) × Bool
    release_own state locks =
        let (locks', success) = release_ids state.lock_ids locks in
        ((if success then record state { lock_ids = [] } else state, locks'), success)

    -- the same of a list of children, the last first
    unfoldable pub release_children : List State → Lock W → List State × Lock W
    release_children [] locks = ([], locks)
    release_children (state ∷ below) locks =
        let (below', locks') = release_children below locks in
        let ((state', locks''), success) = release_own state locks' in (state' ∷ below', locks'')

    unfoldable pub release_locks : Task W → Task W × Bool
    release_locks task =
        let (below, locks) = release_children task.below task.locks in
        let ((state, locks'), success) = release_own task.state locks in
        (record task { below = below; state = state; locks = locks' }, success)

    -- dnf_state_finalize of a child that is dropped, and then of its children, of which there are `fuel`
    unfoldable pub finalize : ℕ → List State → Lock W → Lock W
    finalize zero states locks = (release_children states locks).1
    finalize (suc fuel) states locks =
        let (states', locks') = release_children states locks in
        elim states' as (λ s. Lock W) [
          | [] ↦ locks'
          | state ∷ below ↦
              let dropped = finalize fuel below locks' in
              if state.report_progress then (release_own state dropped).0.1 else locks'
        ]

    -- dnf_state_reset
    unfoldable pub reset : Task W → Task W
    reset task =
        let state = record task.state {
          steps = 0;
          current = 0;
          last_percentage = 0;
          step_data = none;
        } in
        let ((state', locks), success) =
          release_own state (finalize (length task.below) task.below task.locks) in
        if task.state.report_progress
        then record task { below = []; state = state'; locks = locks }
        else task

    -- the same of the child, if there is one
    unfoldable pub reset_child : Task W → Task W
    reset_child task = elim task.below as (λ b. Task W) [
      | [] ↦ task
      | child ∷ below ↦
          let child' = reset (record {
            below = below;
            state = child;
            above = task.state ∷ task.above;
            locks = task.locks;
          }) in
          record task { below = child'.state ∷ child'.below; locks = child'.locks }
    ]

    -- what dnf_state_set_percentage does at 100: whether it goes on
    unfoldable pub complete : Task W → Task W × Bool
    complete task =
        let task1 =
          if task.state.allow_cancel
          then task
          else set_states task (set_allow_cancel true task.state task.above) in
        let task2 =
          if task1.state.action == unknown
          then task1
          else set_states task1 ((action_stop task1.state task1.above).0) in
        release_locks (set_states task2 (set_speed_internal 0 task2.state task2.above))

    module _ {F : Type 0} (floating : Floating F) where
      -- dnf_state_set_percentage; `tell` is the signal to the parents
      unfoldable pub set_percentage_with : (ℕ → Task W → Task W) → ℕ → Task W → Task W × Bool
      set_percentage_with tell percentage task =
          let (task', success) = if percentage == 100 then complete task else (task, true) in
          if not task.state.report_progress
          then (task, true)
          else if percentage == task.state.last_percentage
          then (task, false)
          else if ltb 100 percentage
          then (task, false)
          else if ltb percentage task.state.last_percentage
          then (task, false)
          else if not success
          then (task', false)
          else (
            tell percentage
                (record task' { state = record task'.state { last_percentage = percentage } }),
            true,
          )

      -- dnf_state_child_percentage_changed_cb, of as many parents as `fuel`
      unfoldable pub tell_parent : ℕ → ℕ → Task W → Task W
      tell_parent zero percentage task = task
      tell_parent (suc fuel) percentage task = elim task.above as (λ a. Task W) [
        | [] ↦ task
        | parent ∷ above ↦
            let (parent', percentage') = child_percentage_changed floating percentage parent in
            let up : Task W = record {
              below = task.state ∷ task.below;
              state = parent';
              above = above;
              locks = task.locks;
            } in
            elim percentage' as (λ p. Task W) [
              | none ↦ to_child up
              | some value ↦ to_child ((set_percentage_with (tell_parent fuel) value up).0)
            ]
      ]

      unfoldable pub set_percentage : ℕ → Task W → Task W × Bool
      set_percentage percentage task =
          set_percentage_with (tell_parent (length task.above)) percentage task
