-- ===== src/Utils/WeakPtr/Tests.antt =====
-- Runs of the pointers and guards on concrete stores.
use libhif.Base.{Bool, ◌&&◌, ◌||◌, false, true, some, if◌then◌else◌, ◌≡◌, refl}
use libhif.Utils.WeakPtr.{
  WeakPtr, Store, done, invalid_ptr, put, mem, allocate, register_ptr, construct, get, clear,
  guard_move,
}
use libhif.Utils.WeakPtr.Registration.{points}
use libhif.Utils.WeakPtr.Reachable.{
  allocates, constructs, guard_moves, empty_store, Reachable, start, step, Reachable-Consistent,
  get-clear, get-clear_after_guard_move,
}

abbrev held : WeakPtr
held = record { ptr = some 1; guard = some 10 }

-- the pointer at 20 names the guard at 10
abbrev one_pointer : Store
one_pointer =
    register_ptr
      (record (allocate empty_store) {
        weak_ptrs = put (allocate empty_store).weak_ptrs 20 (some held);
      })
      10 20

one_pointer-Reachable : (careful : Bool) → Reachable true careful one_pointer
unfolding construct
one_pointer-Reachable careful =
    step (step start allocates) (constructs 20 (some 1) (some 10) refl refl)

-- the pointer names the guard at 10, onto which another guard was moved
abbrev left_behind : Store
left_behind = guard_move one_pointer 10 11

left_behind-Reachable : Reachable true false left_behind
left_behind-Reachable = step (one_pointer-Reachable false) (guard_moves 10 11 (λ e. absurd cc) refl)

Reachable-Consistent_example : mem (left_behind.registered_weak_ptrs 10) 20 ≡ (
    points (left_behind.weak_ptrs 20) 10 && (false || mem (left_behind.registered_weak_ptrs 10) 20))
Reachable-Consistent_example =
    Reachable-Consistent true false left_behind 10 20 left_behind-Reachable

get-clear_example : get (clear one_pointer 10) 20 ≡ (
    if points (one_pointer.weak_ptrs 20) 10
      && (true || mem (one_pointer.registered_weak_ptrs 10) 20)
    then invalid_ptr
    else get one_pointer 20)
get-clear_example = get-clear true true one_pointer 10 20 (one_pointer-Reachable true)

-- the pointer that was left behind still gives out its object
stale : get (clear (guard_move one_pointer 10 11) 10) 20 ≡ done (some 1)
unfolding get
stale = get-clear_after_guard_move true one_pointer 10 11 20 (one_pointer-Reachable true) refl refl
