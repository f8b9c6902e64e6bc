-- ===== src/Dnf/State/Tests.antt =====
-- States: runs, and the properties at them.
use libhif.Base.{
  ℕ, ◌+◌, ◌-◌, ◌*◌, ◌/◌, ◌≤◌, Bool, true, false, Option, none, some, List, [], ◌∷◌, ◌≡◌, refl,
  arith, ltb, codes, length,
}
use libhif.Dnf.Lock.{
  LockType, rpmdb, repo, LockMode, thread, process, System, Lock, find_item, change_item,
  remove_item, get_state, get_pid, emit_state, create_item, write_file, make_file, item_for,
  take_new,
}
use libhif.Dnf.Lock as lock
use libhif.Dnf.State.{
  init, Floating, child_allow_cancel_changed, set_allow_cancel, child_action_changed, action_start,
  action_stop, child_notify_speed, set_speed_internal, add_speeds, set_speed, discrete_to_percent,
  equal_steps_percentage, weighted_percentage, child_percentage_changed,
}
use libhif.Dnf.State.Progress.{
  Task, already_at_100, to_child, take_lock, release_ids, release_own, release_children,
  release_locks, finalize, reset, reset_child, complete, set_percentage_with, tell_parent,
  set_percentage,
}
use libhif.Dnf.State.Steps.{
  success, failed, sum_from, sums_from, set_number_steps, set_steps, get_child, check,
  step_percentage, step_done, done, finished,
}
use libhif.Dnf.State.Rises.{Rises, root}
use libhif.Dnf.State.Interpolation.{weighted_percentage-between}
use libhif.Dnf.State.Weights.{shown, dones, set_steps-dones}
use libhif.Dnf.State.Operations.{
  Call, is_done, enter, leave, takes_lock, starts_action, sets_speed, makes_child, sets_steps,
  sets_number_steps, to_parent, call, calls, calls-Rises,
}

runs : Unit {0}
unfolding find_item change_item remove_item get_state get_pid emit_state create_item write_file
    make_file item_for take_new lock.take lock.release child_allow_cancel_changed set_allow_cancel
    child_action_changed action_start action_stop child_notify_speed set_speed_internal add_speeds
    set_speed discrete_to_percent equal_steps_percentage weighted_percentage
    child_percentage_changed to_child take_lock release_ids release_own release_children
    release_locks finalize reset reset_child complete set_percentage_with tell_parent set_percentage
    sum_from sums_from set_number_steps set_steps get_child check step_percentage step_done done
    finished to_parent call calls dones
runs = tt

-- lock files of which none is there, and which can be deleted but for those of `stays`
abbrev no_files : (LockType → Bool) → System ℕ
no_files stays = record {
  exists = λ t w. false;
  get_contents = λ t w. none;
  set_contents = λ t text w. some w;
  delete = λ t w. if_stays (stays t) w;
  is_running = λ pid w. false;
  strtoull = λ text. none;
  pid_text = codes "7";
}
  where
    if_stays : Bool → ℕ → Option ℕ
    if_stays true w = none
    if_stays false w = some w

-- thousandths
abbrev thousandths : Floating ℕ
thousandths = record {
  of_guint = λ n. 1000 * n;
  narrow = λ x. x;
  hundredth = 10;
  add_float = λ x y. x + y;
  sub_float = λ x y. x - y;
  mul_float = λ x y. x * y / 1000;
  div_float = λ x y. 1000 * x / y;
  mul = λ x y. x * y / 1000;
  div = λ x y. 1000 * x / y;
  less = ltb;
  truncate = λ x. x / 1000;
}

abbrev unlocked : Lock ℕ
unlocked = record { item_array = []; next_id = 1; emitted = []; system = 0 }

abbrev fresh : Task ℕ
fresh = record { below = []; state = init; above = []; locks = unlocked }

abbrev calm : ℕ → Bool
calm c = false

abbrev all_go : LockType → Bool
all_go t = false

-- two steps of 80 and 20, the first of them with a child of four steps of which one is done
abbrev session : List Call
session =
    sets_steps 80 (20 ∷ [])
    ∷ takes_lock rpmdb process
    ∷ starts_action 3 (some (codes "repo"))
    ∷ makes_child 1
    ∷ enter
    ∷ sets_number_steps 4
    ∷ sets_speed 10
    ∷ is_done
    ∷ []

shows_20 : root (calls (no_files all_go) 5 thousandths calm session fresh) ≡ 20
unfolding runs
shows_20 = refl

shows_100 :
    root (
      calls
        (no_files all_go)
        5
        thousandths
        calm
        (leave ∷ is_done ∷ is_done ∷ [])
        (calls (no_files all_go) 5 thousandths calm session fresh))
    ≡ 100
unfolding runs
shows_100 = refl

-- the file of the second lock is not deleted: the first lock is gone, but its id is still there, and no later
-- release succeeds
only_repo_stays : LockType → Bool
only_repo_stays repo = true
only_repo_stays _ = false

abbrev two_locks : Task ℕ
two_locks =
    calls (no_files only_repo_stays) 5 thousandths calm
      (takes_lock rpmdb process ∷ takes_lock repo process ∷ []) fresh

releases_one :
    let once = release_locks (no_files only_repo_stays) 5 two_locks in
    let twice = release_locks (no_files all_go) 5 once.0 in
    (once.1 ≡ false)
    × (length once.0.locks.item_array ≡ 1)
    × (once.0.state.lock_ids ≡ 1 ∷ 2 ∷ [])
    × (twice.1 ≡ false)
unfolding runs only_repo_stays
releases_one = (refl, refl, refl, refl)

calls-Rises_example :
    Rises (root fresh) (root (calls (no_files all_go) 5 thousandths calm session fresh))
calls-Rises_example = calls-Rises (no_files all_go) 5 thousandths calm session fresh

set_steps-dones_example :
    let set = set_steps 50 (30 ∷ 0 ∷ 20 ∷ []) init in
    let end =
      dones
        (no_files all_go)
        5
        thousandths
        calm
        4
        (record { below = []; state = set.0; above = []; locks = unlocked }) in
    (set.1 ≡ success)
    × (end.0 ≡ shown 0 (50 ∷ 30 ∷ 0 ∷ 20 ∷ []))
    × (end.1.state.last_percentage ≡ 100)
    × ((done (no_files all_go) 5 thousandths calm end.1).1 ≡ failed already_at_100)
unfolding check
set_steps-dones_example =
    set_steps-dones (no_files all_go) 5 thousandths calm 50 (30 ∷ 0 ∷ 20 ∷ []) init unlocked refl
      refl refl refl refl refl refl (omega arith)

weighted_percentage-between_example :
    let of_child = λ (n : ℕ). weighted_percentage n 1 (80 ∷ 100 ∷ []) in
    (80 ≤ of_child 25)
    × (of_child 25 ≤ of_child 60)
    × (of_child 60 ≤ 100)
    × (of_child 0 ≡ 80)
    × (of_child 100 ≡ 100)
weighted_percentage-between_example =
    weighted_percentage-between 1 (80 ∷ 100 ∷ []) 25 60 (omega arith) (omega arith) (omega arith)
      (omega arith)
