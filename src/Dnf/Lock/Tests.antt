-- ===== src/Dnf/Lock/Tests.antt =====
-- Locks: runs, and the properties at them.
use libhif.Base.{
  ◌-◌, ◌^◌, Bool, true, false, Option, none, some, [], ◌∷◌, ◌≡◌, refl, arith, Bytes, codes,
}
use libhif.Dnf.Lock.{
  rpmdb, repo, thread, process, cannot_get_lock, not_deleted, System, Lock, taken, refused,
  released, kept, find_item, change_item, remove_item, get_state, get_pid, has_id, emit_state,
  create_item, write_file, make_file, item_for, take_new, take, release, finalize,
}
use libhif.Dnf.Lock.Exclusion.{takes, releases, call, calls, take_excludes}
use libhif.Dnf.Lock.Leak.{release_twice-not_deleted}

runs : Unit {0}
unfolding find_item change_item remove_item get_state get_pid emit_state create_item write_file
    make_file item_for take_new take release call calls finalize
runs = tt

-- one file for all types, with its text, that is deleted where `deletes` is true
abbrev one_file : Bool → System (Option Bytes)
one_file deletes = record {
  exists = λ t w. elim w [ none ↦ false | some text ↦ true ];
  get_contents = λ t w. w;
  set_contents = λ t text w. some (some text);
  delete = λ t w. if_deletes deletes;
  is_running = λ pid w. true;
  strtoull = λ text. some 7;
  pid_text = codes "7";
}
  where
    if_deletes : Bool → Option (Option Bytes)
    if_deletes true = some none
    if_deletes false = none

abbrev unlocked : Lock (Option Bytes)
unlocked = record { item_array = []; next_id = 1; emitted = []; system = none }

-- the thread 5 has a process lock
abbrev locked : Lock (Option Bytes)
locked = record {
  item_array = record { owner = 5; id = 1; refcount = 1; mode = process; lock_type = rpmdb } ∷ [];
  next_id = 2;
  emitted = 1 ∷ [];
  system = some (codes "7");
}

takes_lock : take (one_file true) 5 rpmdb process unlocked ≡ (locked, taken 1)
unfolding runs
takes_lock = refl

gives_back :
    release (one_file true) 5 1 locked
    ≡ (record locked { item_array = []; emitted = 1 ∷ 0 ∷ []; system = none }, released)
unfolding runs
gives_back = refl

-- of two locks finalize releases the first only
finalize_skips :
    let lock = calls (one_file true) (takes 5 repo thread ∷ takes 5 rpmdb thread ∷ []) unlocked in
    (finalize (one_file true) 2 5 0 lock).item_array
    ≡ record { owner = 5; id = 2; refcount = 1; mode = thread; lock_type = rpmdb } ∷ []
unfolding runs
finalize_skips = refl

-- a thread lock and a process lock of one type give the bit of another type
bits_of_two_modes :
    (calls (one_file true) (takes 5 repo thread ∷ takes 6 repo process ∷ []) unlocked).emitted
    ≡ 2 ∷ 4 ∷ []
unfolding runs
bits_of_two_modes = refl

take_excludes_example :
    take (one_file true) 6 rpmdb thread (
      calls
        (one_file true)
        (releases 6 1 ∷ takes 5 rpmdb thread ∷ [])
        (take (one_file true) 5 rpmdb thread unlocked).0)
    ≡ (
      calls
          (one_file true)
          (releases 6 1 ∷ takes 5 rpmdb thread ∷ [])
          (take (one_file true) 5 rpmdb thread unlocked).0,
      refused (some cannot_get_lock),
    )
unfolding runs
take_excludes_example =
    take_excludes (one_file true) 5 rpmdb thread 6 1 unlocked
      (releases 6 1 ∷ takes 5 rpmdb thread ∷ []) (omega arith) refl refl

release_twice-not_deleted_example :
    let once = release (one_file false) 5 1 locked in
    let twice = release (one_file false) 5 1 once.0 in
    (once.1 ≡ kept (some not_deleted))
    × (twice.1 ≡ released)
    × (find_item (has_id 1) twice.0.item_array
        ≡ some (record {
          owner = 5;
          id = 1;
          refcount = 2 ^ 32 - 1;
          mode = process;
          lock_type = rpmdb;
        }))
unfolding runs
release_twice-not_deleted_example =
    release_twice-not_deleted (one_file false) 1 locked
      (record { owner = 5; id = 1; refcount = 1; mode = process; lock_type = rpmdb }) (omega arith)
      refl refl refl refl
