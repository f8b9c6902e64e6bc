-- ===== src/Dnf/State/Operations.antt =====
-- Any sequence of calls of the functions on the states of a task, but for a reset of the outermost one.
use libhif.Base.{
  ℕ, ◌+◌, ◌%◌, ◌^◌, length, Bool, true, false, Option, List, [], ◌∷◌, ◌++◌, ◌≡◌, refl, ap, arith,
  Bytes,
}
use libhif.Dnf.Lock.{LockType, LockMode, System, Lock, Taken, taken, refused}
use libhif.Dnf.Lock as lock
use libhif.Dnf.State.{State, set_allow_cancel, action_start, action_stop, set_speed, Floating}
use libhif.Dnf.State.Progress.{
  Task, to_child, set_states, take_lock, release_locks, reset_child, set_percentage,
}
use libhif.Dnf.State.Steps.{
  set_number_steps, set_steps, get_child, step_percentage, step_done, done, finished,
}
use libhif.Dnf.State.Rises.{
  Rises, Rises-refl, Rises-trans, root, outermost, percents, Kept, root-Kept, root-to_child,
  release_own-Kept, set_allow_cancel-Kept, action_start-Kept, action_stop-Kept, set_speed-Kept,
  set_percentage-Rises,
}

-- a call at a state; `enter` and `leave` go to its child and to its parent, and resets_child resets its child
pub data Call : Type 0 where
  sets_percentage : ℕ → Call
  is_done is_finished stops_action releases_locks resets_child enter leave : Call
  takes_lock : LockType → LockMode → Call
  allows_cancel reports_progress : Bool → Call
  starts_action : ℕ → Option Bytes → Call
  sets_speed sets_number_steps makes_child : ℕ → Call
  sets_steps : ℕ → List ℕ → Call

-- the same states, seen from the parent
unfoldable pub to_parent : {W : Type 0} → Task W → Task W
to_parent task = elim task.above as (λ a. Task _) [
  | [] ↦ task
  | parent ∷ above ↦ record task { below = task.state ∷ task.below; state = parent; above = above }
]

module _ {W F : Type 0} (system : System W) (self : ℕ) (floating : Floating F)
    (is_cancelled : ℕ → Bool) where
  unfoldable pub call : Call → Task W → Task W
  call (sets_percentage n) task = (set_percentage system self floating n task).0
  call is_done task = (done system self floating is_cancelled task).0
  call is_finished task = (finished system self floating is_cancelled task).0
  call stops_action task = set_states task (action_stop task.state task.above).0
  call releases_locks task = (release_locks system self task).0
  call resets_child task = reset_child system self task
  call enter task = to_child task
  call leave task = to_parent task
  call (takes_lock lock_type mode) task = (take_lock system self lock_type mode task).0
  call (allows_cancel b) task = set_states task (set_allow_cancel b task.state task.above)
  call (reports_progress b) task = record task { state = record task.state { report_progress = b } }
  call (starts_action action hint) task =
      set_states task (action_start action hint task.state task.above).0
  call (sets_speed speed) task = set_states task (set_speed speed task.state task.above)
  call (sets_number_steps steps) task = record task {
    state = (set_number_steps steps task.state).0;
  }
  call (makes_child cancellable) task = get_child system self cancellable task
  call (sets_steps value values) task = record task {
    state = (set_steps value values task.state).0;
  }

  unfoldable pub calls : List Call → Task W → Task W
  calls [] task = task
  calls (c ∷ cs) task = calls cs (call c task)

  of_states :
      (task : Task W) (states : State × List State)
      → Kept task.state task.above states
      → Rises (root task) (root (set_states task states))
  of_states task states kept = Rises-refl _ _ (root-Kept task.state task.above states kept)

  -- a task of which the state has the same percentage
  of_state :
      (task : Task W) (state : State)
      → state.last_percentage ≡ task.state.last_percentage
      → Rises (root task) (root (record task { state = state }))
  of_state task state same = Rises-refl _ _ (ap (λ n. outermost n (percents task.above)) same)

  root-to_parent : (task : Task W) → root (to_parent task) ≡ root task
  unfolding to_parent
  root-to_parent task = up task.above
    where
      up :
          (above : List State)
          → root (to_parent (record task { above = above })) ≡ root (record task { above = above })
      up [] = refl
      up (parent ∷ above) = refl

  root-reset_child : (task : Task W) → root (reset_child system self task) ≡ root task
  unfolding reset_child
  root-reset_child task = under task.below
    where
      under :
          (below : List State)
          → root (reset_child system self (record task { below = below })) ≡ root task
      under [] = refl
      under (child ∷ below) = refl

  step_done-Rises : (task : Task W) → Rises (root task) (root (step_done system self floating task))
  unfolding step_done
  step_done-Rises task =
      let allowed = set_allow_cancel true task.state task.above in
      let kept = set_allow_cancel-Kept true task.state task.above in
      let counted : Task W = record (set_states task allowed) {
        state = record allowed.0 { current = (allowed.0.current + 1) % 2 ^ 32 };
      } in
      let percentage = step_percentage floating counted.state in
      Rises-trans _ _ _ (of_states task allowed kept) (
        Rises-trans _ _ _ (set_percentage-Rises system self floating percentage counted) (
          Rises-refl _ _
            (root-reset_child (set_percentage system self floating percentage counted).0)))

  done-Rises :
      (task : Task W) → Rises (root task) (root (done system self floating is_cancelled task).0)
  unfolding done
  done-Rises task = ground (arith, step_done-Rises task)

  finished-Rises :
      (task : Task W) → Rises (root task) (root (finished system self floating is_cancelled task).0)
  unfolding finished
  finished-Rises task = ground (
    arith,
    set_percentage-Rises system self floating 100
        (record task { state = record task.state { current = task.state.steps } }),
  )

  release_locks-Rises :
      (task : Task W) → Rises (root task) (root (release_locks system self task).0)
  unfolding release_locks
  release_locks-Rises task =
      Rises-refl _ _
        (ap (λ n. outermost n (percents task.above)) (release_own-Kept system self task.state _))

  take_lock-Rises :
      (lock_type : LockType) (mode : LockMode) (task : Task W)
      → Rises (root task) (root (take_lock system self lock_type mode task).0)
  unfolding take_lock
  take_lock-Rises lock_type mode task =
      elim (lock.take system self lock_type mode task.locks).1
        as (λ r. Rises (root task) (root (given r).0)) [
          | taken lock_id ↦ Rises-refl _ _ refl
          | refused error ↦ Rises-refl _ _ refl
        ]
    where
      given : Taken → Task W × Bool
      given (taken lock_id) = (
        record task {
          state = record task.state { lock_ids = task.state.lock_ids ++ (lock_id ∷ []) };
          locks = (lock.take system self lock_type mode task.locks).0;
        },
        true,
      )
      given (refused error) =
          (record task { locks = (lock.take system self lock_type mode task.locks).0 }, false)

  set_number_steps-Kept :
      (steps : ℕ) (state : State)
      → (set_number_steps steps state).0.last_percentage ≡ state.last_percentage
  unfolding set_number_steps
  set_number_steps-Kept steps state = ground arith

  set_steps-Kept :
      (value : ℕ) (values : List ℕ) (state : State)
      → (set_steps value values state).0.last_percentage ≡ state.last_percentage
  unfolding set_steps
  set_steps-Kept value values state =
      ground (arith, set_number_steps-Kept (length values + 1) state)

  root-get_child :
      (cancellable : ℕ) (task : Task W) → root (get_child system self cancellable task) ≡ root task
  unfolding get_child
  root-get_child cancellable task = ground arith

  call-Rises : (c : Call) (task : Task W) → Rises (root task) (root (call c task))
  unfolding call
  call-Rises (sets_percentage n) task = set_percentage-Rises system self floating n task
  call-Rises is_done task = done-Rises task
  call-Rises is_finished task = finished-Rises task
  call-Rises stops_action task =
      of_states task (action_stop task.state task.above).0 (action_stop-Kept task.state task.above)
  call-Rises releases_locks task = release_locks-Rises task
  call-Rises resets_child task = Rises-refl _ _ (root-reset_child task)
  call-Rises enter task = Rises-refl _ _ (root-to_child task)
  call-Rises leave task = Rises-refl _ _ (root-to_parent task)
  call-Rises (takes_lock lock_type mode) task = take_lock-Rises lock_type mode task
  call-Rises (allows_cancel b) task =
      of_states task (set_allow_cancel b task.state task.above)
        (set_allow_cancel-Kept b task.state task.above)
  call-Rises (reports_progress b) task = Rises-refl _ _ refl
  call-Rises (starts_action action hint) task =
      of_states task (action_start action hint task.state task.above).0
        (action_start-Kept action hint task.state task.above)
  call-Rises (sets_speed speed) task =
      of_states task (set_speed speed task.state task.above)
        (set_speed-Kept speed task.state task.above)
  call-Rises (sets_number_steps steps) task =
      of_state task (set_number_steps steps task.state).0 (set_number_steps-Kept steps task.state)
  call-Rises (makes_child cancellable) task = Rises-refl _ _ (root-get_child cancellable task)
  call-Rises (sets_steps value values) task =
      of_state task (set_steps value values task.state).0 (set_steps-Kept value values task.state)

  -- Whatever is called at a task and at its children, but for a reset of the outermost state, the percentage of
  -- the outermost state never goes down, and if it was at most 100 it stays so.
  pub calls-Rises : (cs : List Call) (task : Task W) → Rises (root task) (root (calls cs task))
  unfolding calls
  calls-Rises [] task = Rises-refl _ _ refl
  calls-Rises (c ∷ cs) task = Rises-trans _ _ _ (call-Rises c task) (calls-Rises cs (call c task))
