-- ===== src/Dnf/State/Weights.antt =====
-- A task whose steps have weights: the percentages of its steps, up to 100 and the error behind it.
use libhif.Base.{
  ℕ, zero, suc, ◌+◌, ◌-◌, ◌%◌, ◌^◌, ◌<◌, ◌≤◌, Bool, true, false, some, List, [], ◌∷◌, ◌≡◌, refl, ap,
  ap₂, ◌∙◌, arith, length, get_or, get_or-drop, drop, drop-next,
}
use libhif.Dnf.Lock.{System, Lock}
use libhif.Dnf.State.{
  State, set_allow_cancel, action_stop, set_speed_internal, child_action_changed,
  child_notify_speed, child_allow_cancel_changed, Floating,
}
use libhif.Dnf.State.Progress.{
  Task, set_states, already_at_100, release_ids, release_own, release_children, release_locks,
  complete, reset_child, set_percentage_with, tell_parent, set_percentage,
}
use libhif.Dnf.State.Steps.{
  Result, success, failed, sum_from, sums_from, set_number_steps, set_steps, check, step_percentage,
  step_done, done,
}

-- the running totals of weights
abbrev pub totals : ℕ → List ℕ → List ℕ
totals total [] = []
totals total (value ∷ values) = (total + value) ∷ totals (total + value) values

-- the totals, each shown by a step that is done without an error
abbrev pub shown : ℕ → List ℕ → List (ℕ × Result)
shown total [] = []
shown total (value ∷ values) = (total + value, success) ∷ shown (total + value) values

abbrev pub sum : List ℕ → ℕ
sum [] = 0
sum (value ∷ values) = value + sum values

-- a state whose steps have the totals `step_data`, with `current` of its `steps` steps done
pub record Weighted (is_cancelled : ℕ → Bool) (steps : ℕ) (step_data : List ℕ)
    (current percentage : ℕ) (state : State) : Type 0 where
  pub checked : check is_cancelled state ≡ true
  pub reports : state.report_progress ≡ true
  pub unlocked : state.lock_ids ≡ []
  pub has_steps : state.steps ≡ steps
  pub has_data : state.step_data ≡ some step_data
  pub at_current : state.current ≡ current
  pub at_percentage : state.last_percentage ≡ percentage

module _ {W F : Type 0} (system : System W) (self : ℕ) (floating : Floating F)
    (is_cancelled : ℕ → Bool) where
  -- a state without parents and children
  abbrev pub lone_task : State → Lock W → Task W
  lone_task state locks = record { below = []; state = state; above = []; locks = locks }

  -- what is done so often, and behind each time the percentage and the result
  unfoldable pub dones : ℕ → Task W → List (ℕ × Result) × Task W
  dones zero task = ([], task)
  dones (suc n) task =
      let (task', result) = done system self floating is_cancelled task in
      let (results, last) = dones n task' in ((task'.state.last_percentage, result) ∷ results, last)

  allowed_lem :
      (state : State)
      → set_allow_cancel true state []
        ≡ (record state { allow_cancel_changed_state = true; allow_cancel = true }, [])
  unfolding set_allow_cancel child_allow_cancel_changed
  allowed_lem state = from state.allow_cancel
    where
      from :
          (b : Bool)
          → set_allow_cancel true (record state { allow_cancel = b }) []
            ≡ (record state { allow_cancel_changed_state = true; allow_cancel = true }, [])
      from true = refl
      from false = refl

  reset_child-none : (task : Task W) → task.below ≡ [] → reset_child system self task ≡ task
  unfolding reset_child
  reset_child-none task none_below = rw none_below refl

  abbrev counted_up : State → State
  counted_up state = record state {
    allow_cancel_changed_state = true;
    allow_cancel = true;
    current = (state.current + 1) % 2 ^ 32;
  }

  step_done-alone :
      (state : State) (locks : Lock W)
      → step_done system self floating (lone_task state locks)
        ≡ reset_child system self (
            (set_percentage system self floating
              (step_percentage floating (counted_up state))
              (lone_task (counted_up state) locks)).0)
  unfolding step_done
  step_done-alone state locks =
      ap
        (λ (allowed : State × List State).
          let counted = record allowed.0 { current = (allowed.0.current + 1) % 2 ^ 32 } in
          reset_child system self (
            (set_percentage system self floating (step_percentage floating counted)
              (record (set_states (lone_task state locks) allowed) { state = counted })).0))
        (allowed_lem state)

  -- one more step is done
  abbrev Step : ℕ → List ℕ → ℕ → ℕ → Task W × Result → Type 0
  Step steps step_data current percentage result =
      (state : State) × (locks : Lock W) × (result ≡ (lone_task state locks, success))
      × Weighted is_cancelled steps step_data current percentage state

  set_percentage-alone :
      (percentage : ℕ) (state : State) (locks : Lock W)
      → state.report_progress ≡ true
      → state.lock_ids ≡ []
      → state.last_percentage ≤ percentage
      → percentage ≤ 100
      → let task = (set_percentage system self floating percentage (lone_task state locks)).0 in
        (task.below ≡ [])
        × (task.above ≡ [])
        × (task.state.last_percentage ≡ percentage)
        × (task.state.lock_ids ≡ [])
        × (task.state.steps ≡ state.steps)
        × (task.state.step_data ≡ state.step_data)
        × (task.state.current ≡ state.current)
        × (task.state.cancellable ≡ state.cancellable)
        × (task.state.report_progress ≡ true)
  unfolding set_percentage set_percentage_with tell_parent complete release_locks release_own
      release_ids release_children set_allow_cancel action_stop set_speed_internal
      child_action_changed child_notify_speed child_allow_cancel_changed
  set_percentage-alone percentage state locks reports unlocked low high =
      ground (arith, reports, unlocked, low, high)

  done-Step :
      (steps : ℕ) (step_data : List ℕ) (current percentage next : ℕ) (state : State)
      (locks : Lock W)
      → Weighted is_cancelled steps step_data current percentage state
      → current < steps
      → steps < 2 ^ 32
      → get_or step_data current 0 ≡ next
      → percentage ≤ next
      → next ≤ 100
      → Step steps step_data
          (suc current)
          next
          (done system self floating is_cancelled (lone_task state locks))
  unfolding done step_percentage check
  done-Step steps step_data current percentage next state locks w more small here low high =
      let counted = counted_up state in
      let at_next : counted.current ≡ suc current = omega (arith, w.at_current, more, small) in
      let place : counted.current - 1 ≡ current = omega (arith, at_next) in
      let p : step_percentage floating counted ≡ next = rw (w.has_data, place) here in
      let set =
        set_percentage-alone (step_percentage floating counted) counted locks w.reports w.unlocked
          (omega (arith, w.at_percentage, low, p)) (omega (arith, high, p)) in
      let task =
        (set_percentage system self floating (step_percentage floating counted)
          (lone_task counted locks)).0 in
      let stepped : step_done system self floating (lone_task state locks) ≡ task =
        step_done-alone state locks ∙ reset_child-none task set.0 in
      let result : done system self floating is_cancelled (lone_task state locks)
          ≡ (task, success) =
        ground (arith, stepped, w.checked, w.reports, w.has_steps, w.at_current, more) in
      let (no_child, no_parent, showing, free, all, weights, counts, cancels, reporting) = set in
      let by_itself : task ≡ lone_task task.state task.locks =
        ap₂ (λ (b : List State) (a : List State). record task { below = b; above = a }) no_child
          no_parent in
      (
        task.state,
        task.locks,
        result ∙ ap (λ (t : Task W). (t, success)) by_itself,
        record {
          checked = rw (check, cancels) w.checked;
          reports = reporting;
          unlocked = free;
          has_steps = all ∙ w.has_steps;
          has_data = weights ∙ w.has_data;
          at_current = counts ∙ at_next;
          at_percentage = showing ∙ p;
        },
      )

  done-past :
      (steps : ℕ) (step_data : List ℕ) (percentage : ℕ) (state : State) (locks : Lock W)
      → Weighted is_cancelled steps step_data steps percentage state
      → 0 < steps
      → (done system self floating is_cancelled (lone_task state locks)).1 ≡ failed already_at_100
  unfolding done
  done-past steps step_data percentage state locks w some_step =
      ground (arith, some_step, w.checked, w.reports, w.has_steps, w.at_current)

  moved :
      {a b p q : ℕ} (steps : ℕ) (step_data : List ℕ) (state : State)
      → Weighted is_cancelled steps step_data a p state
      → a ≡ b
      → p ≡ q
      → Weighted is_cancelled steps step_data b q state
  moved steps step_data state w e f = record {
    checked = w.checked;
    reports = w.reports;
    unlocked = w.unlocked;
    has_steps = w.has_steps;
    has_data = w.has_data;
    at_current = w.at_current ∙ e;
    at_percentage = w.at_percentage ∙ f;
  }

  dones-zero : (task : Task W) → dones 0 task ≡ ([], task)
  unfolding dones
  dones-zero task = refl

  dones-suc :
      (n : ℕ) (task : Task W) (state : State) (locks : Lock W)
      → done system self floating is_cancelled task ≡ (lone_task state locks, success)
      → dones (suc n) task ≡ (
        (state.last_percentage, success) ∷ (dones n (lone_task state locks)).0,
        (dones n (lone_task state locks)).1,
      )
  unfolding dones
  dones-suc n task state locks e =
      ap
        (λ (r : Task W × Result).
          ((r.0.state.last_percentage, r.1) ∷ (dones n r.0).0, (dones n r.0).1))
        e

  -- each time is without an error, the percentages are the running totals, and all steps are done
  abbrev Ends : ℕ → List ℕ → ℕ → List ℕ → List (ℕ × Result) × Task W → Type 0
  Ends steps step_data total values end =
      (end.0 ≡ shown total values)
      × (state : State) × (locks : Lock W) × (end.1 ≡ lone_task state locks)
      × Weighted is_cancelled steps step_data steps (total + sum values) state

  -- the steps that are left, with the weights `values`
  dones-totals :
      (steps : ℕ) (step_data : List ℕ) (current total : ℕ) (values : List ℕ) (state : State)
      (locks : Lock W)
      → Weighted is_cancelled steps step_data current total state
      → current + length values ≡ steps
      → steps < 2 ^ 32
      → drop current step_data ≡ totals total values
      → total + sum values ≤ 100
      → Ends steps step_data total values (dones (length values) (lone_task state locks))
  dones-totals steps step_data current total [] state locks w all small left high =
      let all_done : current ≡ steps = omega (arith, all) in
      rw (dones-zero (lone_task state locks))
        (refl, state, locks, refl, moved steps step_data state w all_done (omega arith))
  dones-totals steps step_data current total (value ∷ values) state locks w all small left high =
      let here =
        get_or-drop current step_data (total + value) (totals (total + value) values) 0 left in
      let (state', locks', is_done, w') =
        done-Step steps step_data current total (total + value) state locks w (omega (arith, all))
          small here (omega arith) (omega (arith, high)) in
      let behind : drop (suc current) step_data ≡ totals (total + value) values =
        ap (λ n. drop n step_data) {x = suc current} {y = current + 1} (omega arith)
        ∙ drop-next current step_data (total + value) (totals (total + value) values) left in
      let (known, state'', locks'', at_end, w'') =
        dones-totals steps step_data (suc current) (total + value) values state' locks' w'
          (omega (arith, all)) small behind (omega (arith, high)) in
      rw (dones-suc (length values) (lone_task state locks) state' locks' is_done) (
        ap₂ (λ n l. (n, success) ∷ l) w'.at_percentage known,
        state'',
        locks'',
        at_end,
        moved steps step_data state'' w'' refl (omega arith),
      )

sums-totals :
    (total : ℕ) (values : List ℕ)
    → total + sum values ≤ 100
    → sums_from total values ≡ totals total values
unfolding sums_from
sums-totals total [] high = refl
sums-totals total (value ∷ values) high =
    let no_wrap : (total + value) % 2 ^ 32 ≡ total + value = omega (arith, high) in
    rw no_wrap
      (ap (λ l. (total + value) ∷ l) (sums-totals (total + value) values (omega (arith, high))))

sum_from-sum :
    (total : ℕ) (values : List ℕ)
    → total + sum values ≤ 100
    → sum_from total values ≡ total + sum values
unfolding sum_from
sum_from-sum total [] high = omega arith
sum_from-sum total (value ∷ values) high =
    let no_wrap : (total + value) % 2 ^ 32 ≡ total + value = omega (arith, high) in
    rw no_wrap (sum_from-sum (total + value) values (omega (arith, high)) ∙ omega arith)

-- When a state without parents, children and locks, that reports progress and has neither steps nor a percentage
-- yet (steps, current and last_percentage are 0), gets fewer than 2 ^ 32 steps, whose weights add up to 100, and is not
-- cancelled, then it is done once for each weight without an error, its percentages behind them are the
-- running totals of the weights, the last one is 100, and the next time that it is done is an error.
pub set_steps-dones :
    {W F : Type 0} (system : System W) (self : ℕ) (floating : Floating F) (is_cancelled : ℕ → Bool)
    (value : ℕ) (values : List ℕ) (state : State) (locks : Lock W)
    → check is_cancelled state ≡ true
    → state.report_progress ≡ true
    → state.lock_ids ≡ []
    → state.steps ≡ 0
    → state.current ≡ 0
    → state.last_percentage ≡ 0
    → sum (value ∷ values) ≡ 100
    → length values + 1 < 2 ^ 32
    → let set = set_steps value values state in
      let end =
        dones system self floating is_cancelled
          (length (value ∷ values))
          (record { below = []; state = set.0; above = []; locks = locks }) in
      (set.1 ≡ success)
      × (end.0 ≡ shown 0 (value ∷ values))
      × (end.1.state.last_percentage ≡ 100)
      × ((done system self floating is_cancelled end.1).1 ≡ failed already_at_100)
unfolding set_steps set_number_steps check
set_steps-dones system self floating is_cancelled value values state locks checked reports unlocked
      no_steps at_0 shows_0 whole small =
    let weights = value ∷ sums_from value values in
    let steps = length values + 1 in
    let ready = record state { steps = steps; step_data = some weights } in
    let result : set_steps value values state ≡ (ready, success) =
      ground (arith, reports, no_steps, sum_from-sum value values (omega (arith, whole)), whole) in
    let known : weights ≡ totals 0 (value ∷ values) =
      ap₂ (λ n l. n ∷ l) {y = 0 + value} (omega arith)
        (sums-totals value values (omega (arith, whole))
          ∙ ap (λ n. totals n values) {y = 0 + value} (omega arith)) in
    let start : Weighted is_cancelled steps weights 0 0 ready = record {
      checked = checked;
      reports = reports;
      unlocked = unlocked;
      has_steps = refl;
      has_data = refl;
      at_current = at_0;
      at_percentage = shows_0;
    } in
    let (results, state', locks', at_end, w) =
      dones-totals system self floating is_cancelled steps weights 0 0 (value ∷ values) ready locks
        start (omega arith) small known (omega (arith, whole)) in
    let past =
      done-past system self floating is_cancelled steps weights (0 + sum (value ∷ values)) state'
        locks' w (omega arith) in
    rw (result, at_end) (refl, results, omega (arith, w.at_percentage, whole), past)
