-- ===== src/Dnf/State/Rises.antt =====
-- The percentage of the outermost task: what keeps it, and that dnf_state_set_percentage lets it rise only.
use libhif.Base.{
  ℕ, zero, suc, ◌≤◌, Bool, true, false, none, some, List, [], ◌∷◌, ◌≡◌, refl, ap, ap₂, ◌∙◌, arith,
  ◌==◌, if◌then◌else◌, length,
}
use libhif.Dnf.Lock.{System, Lock}
use libhif.Dnf.State.{
  State, child_allow_cancel_changed, set_allow_cancel, child_action_changed, action_start,
  action_stop, child_notify_speed, set_speed_internal, set_speed, Floating,
  child_percentage_changed, equal_steps_percentage,
}
use libhif.Dnf.State.Progress.{
  Task, to_child, set_states, release_own, release_locks, complete, set_percentage_with,
  tell_parent, set_percentage,
}

abbrev pub percents : List State → List ℕ
percents [] = []
percents (state ∷ above) = state.last_percentage ∷ percents above

abbrev pub outermost : ℕ → List ℕ → ℕ
outermost percentage [] = percentage
outermost percentage (parent ∷ above) = outermost parent above

-- the percentage of the task that all others are children of
abbrev pub root : {W : Type 0} → Task W → ℕ
root task = outermost task.state.last_percentage (percents task.above)

-- from one percentage to another it does not go down, nor past 100
abbrev pub Rises : ℕ → ℕ → Type 0
Rises from to = (from ≤ to) × (from ≤ 100 → to ≤ 100)

pub Rises-trans : (a b c : ℕ) → Rises a b → Rises b c → Rises a c
Rises-trans a b c h k = ground (arith, h, k)

pub Rises-refl : (a b : ℕ) → b ≡ a → Rises a b
Rises-refl a b e = ground (arith, e)

pub if_elim {ℓ κ} :
    {A : Type ℓ} (P : A → Type κ) (c : Bool) {x y : A}
    → (c ≡ true → P x)
    → (c ≡ false → P y)
    → P (if c then x else y)
if_elim P true h k = h refl
if_elim P false h k = k refl

-- a state and its parents, with the percentages that they have
abbrev pub Kept : State → List State → State × List State → Type 0
Kept state above states =
    (states.0.last_percentage ≡ state.last_percentage) × (percents states.1 ≡ percents above)

percents-allow_cancel :
    (b : Bool) (above : List State) → percents (child_allow_cancel_changed b above) ≡ percents above
unfolding child_allow_cancel_changed
percents-allow_cancel b [] = refl
percents-allow_cancel b (parent ∷ above) =
    ap (λ l. parent.last_percentage ∷ l) (percents-allow_cancel _ above)

percents-action :
    (action : ℕ) (above : List State)
    → percents (child_action_changed action above) ≡ percents above
unfolding child_action_changed
percents-action action [] = refl
percents-action action (parent ∷ above) =
    ap (λ l. parent.last_percentage ∷ l) (percents-action action above)

percents-speed :
    (speed : ℕ) (above : List State) → percents (child_notify_speed speed above) ≡ percents above
unfolding child_notify_speed
percents-speed speed [] = refl
percents-speed speed (parent ∷ above) =
    if_elim (λ a. percents a ≡ percents (parent ∷ above)) (parent.speed == speed) (λ e. refl)
      (λ e. ap (λ l. parent.last_percentage ∷ l) (percents-speed speed above))

pub set_allow_cancel-Kept :
    (b : Bool) (state : State) (above : List State)
    → Kept state above (set_allow_cancel b state above)
unfolding set_allow_cancel
set_allow_cancel-Kept b state above =
    if_elim (Kept state above) _ (λ e. (refl, refl)) (λ e. (refl, percents-allow_cancel _ above))

pub action_start-Kept :
    (action : ℕ) (hint : _) (state : State) (above : List State)
    → Kept state above (action_start action hint state above).0
unfolding action_start
action_start-Kept action hint state above = ground (arith, percents-action action above)

pub action_stop-Kept :
    (state : State) (above : List State) → Kept state above (action_stop state above).0
unfolding action_stop
action_stop-Kept state above =
    if_elim (λ (r : (State × List State) × Bool). Kept state above r.0) _ (λ e. (refl, refl))
      (λ e. (refl, percents-action _ above))

pub set_speed_internal-Kept :
    (speed : ℕ) (state : State) (above : List State)
    → Kept state above (set_speed_internal speed state above)
unfolding set_speed_internal
set_speed_internal-Kept speed state above =
    if_elim (Kept state above) _ (λ e. (refl, refl)) (λ e. (refl, percents-speed speed above))

pub set_speed-Kept :
    (speed : ℕ) (state : State) (above : List State)
    → Kept state above (set_speed speed state above)
unfolding set_speed
set_speed-Kept speed state above = set_speed_internal-Kept _ _ above

-- the root of states that are kept
pub root-Kept :
    (state : State) (above : List State) (states : State × List State)
    → Kept state above states
    → outermost states.0.last_percentage (percents states.1)
      ≡ outermost state.last_percentage (percents above)
root-Kept state above states kept = ap₂ outermost kept.0 kept.1

outermost-Rises :
    (a b : ℕ) (above : List ℕ) → a ≤ b → b ≤ 100 → Rises (outermost a above) (outermost b above)
outermost-Rises a b [] h le = ground (arith, h, le)
outermost-Rises a b (parent ∷ above) h le = Rises-refl _ _ refl

pub root-to_child : {W : Type 0} (task : Task W) → root (to_child task) ≡ root task
unfolding to_child
root-to_child task = down task.below
  where
    down : (below : List State) → root (to_child (record task { below = below })) ≡ root task
    down [] = refl
    down (state ∷ below) = refl

module _ {W : Type 0} (system : System W) (self : ℕ) where
  pub release_own-Kept :
      (state : State) (locks : Lock W)
      → (release_own system self state locks).0.0.last_percentage ≡ state.last_percentage
  unfolding release_own
  release_own-Kept state locks =
      if_elim (λ (s : State). s.last_percentage ≡ state.last_percentage) _ (λ e. refl) (λ e. refl)

  complete-Kept :
      (task : Task W)
      → let result = complete system self task in
        Kept task.state task.above (result.0.state, result.0.above)
  unfolding complete release_locks
  complete-Kept task =
      let kept = λ (t : Task W). Kept task.state task.above (t.state, t.above) in
      let task1 : Task W =
        if task.state.allow_cancel
        then task
        else set_states task (set_allow_cancel true task.state task.above) in
      let task2 : Task W =
        if task1.state.action == 0
        then task1
        else set_states task1 ((action_stop task1.state task1.above).0) in
      let kept1 : kept task1 =
        if_elim kept task.state.allow_cancel (λ e. (refl, refl))
          (λ e. set_allow_cancel-Kept true task.state task.above) in
      let kept2 : kept task2 =
        if_elim kept _ (λ e. kept1)
          (λ e.
            let stopped = action_stop-Kept task1.state task1.above in
            (stopped.0 ∙ kept1.0, stopped.1 ∙ kept1.1)) in
      let slow = set_speed_internal-Kept 0 task2.state task2.above in
      (release_own-Kept _ _ ∙ slow.0 ∙ kept2.0, slow.1 ∙ kept2.1)

  module _ {F : Type 0} (floating : Floating F) where
    equal_steps_percentage-Kept :
        (percentage : ℕ) (state : State)
        → (equal_steps_percentage floating percentage state).0.last_percentage
          ≡ state.last_percentage
    unfolding equal_steps_percentage
    equal_steps_percentage-Kept percentage state = ground arith

    child_percentage_changed-Kept :
        (percentage : ℕ) (state : State)
        → (child_percentage_changed floating percentage state).0.last_percentage
          ≡ state.last_percentage
    unfolding child_percentage_changed
    child_percentage_changed-Kept percentage state =
        ground (arith, equal_steps_percentage-Kept percentage state)

    -- dnf_state_set_percentage, for parents in which the root rises
    set_percentage_with-Rises :
        (tell : ℕ → Task W → Task W) (percentage : ℕ) (task : Task W)
        → ((t : Task W) → Rises (root t) (root (tell percentage t)))
        → Rises (root task) (root (set_percentage_with system self floating tell percentage task).0)
    unfolding set_percentage_with
    set_percentage_with-Rises tell percentage task told =
        let ready : Task W × Bool =
          if percentage == 100 then complete system self task else (task, true) in
        let kept : Kept task.state task.above (ready.0.state, ready.0.above) =
          if_elim (λ (r : Task W × Bool). Kept task.state task.above (r.0.state, r.0.above))
            (percentage == 100) (λ e. complete-Kept task) (λ e. (refl, refl)) in
        let set = record ready.0 {
          state = record ready.0.state { last_percentage = percentage };
        } in
        let raised : task.state.last_percentage ≤ percentage
            → percentage ≤ 100
            → Rises (root task) (root set) =
          λ low. λ high.
            Rises-trans _ _ _
              (outermost-Rises task.state.last_percentage percentage (percents task.above) low high)
              (Rises-refl _ _ (ap (outermost percentage) kept.1)) in
        ground (arith, raised, root-Kept _ _ _ kept, told set)

    tell_parent-Rises :
        (fuel percentage : ℕ) (task : Task W)
        → Rises (root task) (root (tell_parent system self floating fuel percentage task))
    unfolding tell_parent
    tell_parent-Rises zero percentage task = Rises-refl _ _ refl
    tell_parent-Rises (suc fuel) percentage task = with_above (tell_parent-Rises fuel) task.above
      where
        with_above :
            ((value : ℕ) (t : Task W)
              → Rises (root t) (root (tell_parent system self floating fuel value t)))
            → (above : List State)
            → Rises (root (record task { above = above })) (
                root (
                  tell_parent system self floating
                    (suc fuel)
                    percentage
                    (record task { above = above })))
        with_above told [] = Rises-refl _ _ refl
        with_above told (parent ∷ above) =
            let heard = child_percentage_changed floating percentage parent in
            let up : Task W = record {
              below = task.state ∷ task.below;
              state = heard.0;
              above = above;
              locks = task.locks;
            } in
            let same : root up ≡ outermost parent.last_percentage (percents above) =
              ap (λ n. outermost n (percents above))
                (child_percentage_changed-Kept percentage parent) in
            elim heard.1
              as (λ o. Rises (outermost parent.last_percentage (percents above)) (
                root {W = W} (elim o as (λ p. Task W) [
                  | none ↦ to_child up
                  | some value ↦
                      to_child
                        (set_percentage_with system self floating
                          (tell_parent system self floating fuel) value up).0
                ]))) [
                  | none ↦ Rises-refl _ _ (root-to_child up ∙ same)
                  | some value ↦
                      let set =
                        set_percentage_with-Rises (tell_parent system self floating fuel) value up
                          (told value) in
                      Rises-trans _ _ _ (Rises-refl _ _ same) (
                        Rises-trans _ _ _ set (
                          Rises-refl _ _ (
                            root-to_child
                              (set_percentage_with system self floating
                                (tell_parent system self floating fuel) value up).0)))
                ]

    pub set_percentage-Rises :
        (percentage : ℕ) (task : Task W)
        → Rises (root task) (root (set_percentage system self floating percentage task).0)
    unfolding set_percentage
    set_percentage-Rises percentage task =
        set_percentage_with-Rises (tell_parent system self floating (length task.above)) percentage
          task (tell_parent-Rises (length task.above) percentage)
