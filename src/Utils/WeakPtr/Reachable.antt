-- ===== src/Utils/WeakPtr/Reachable.antt =====
-- Runs of the operations from an empty store, and what holds in every store they reach.
use libhif.Base.{
  ℕ, Bool, true, false, Option, none, some, List, [], ◌∷◌, ◌&&◌, ◌||◌, ◌==◌, if◌then◌else◌, ◌≡◌,
  refl, arith, inl, inr, Option-cases,
}
use libhif.Utils.WeakPtr.{
  Store, Effect, done, invalid_ptr, undefined, allocate, put, mem, set_guard, delete_ptr, copy_ptr,
  construct, copy_construct, move_construct, destroy, assign_ptr, copy_assign, move_assign, get,
  set_guards, clear, guard_move,
}
use libhif.Utils.WeakPtr.Registration.{
  points, Consistent, Keeps, construct-Keeps, copy_construct-Keeps,
}
use libhif.Utils.WeakPtr.Lifetime.{
  destroy-Keeps, move_construct-Keeps, copy_assign-Keeps, move_assign-Keeps, same_guard_refl,
}
use libhif.Utils.WeakPtr.Guards.{
  clear-Consistent, guard_move-Consistent, registered-set_guards, alive, points_one, points-alive,
}
use libhif.Utils.WeakPtr.Sound.{
  Sound, KeepsSound, construct-Sound, copy_construct-Sound, destroy-Sound, move_construct-Sound,
}
use libhif.Utils.WeakPtr.Assigns.{
  copy_assign-Sound, move_assign-Sound, clear-Sound, guard_move-Sound,
}

-- A new object, or one call on pointers or guards. Constructors run at addresses where no object lives, and moving
-- a pointer exists for owners only. A careful program moves a guard only to one that holds no registrations;
-- a guard is never moved to itself, which leaves its std::unordered_set unspecified.
pub data Step (owner careful : Bool) : Store → Store → Type 0 where
  allocates : {s : Store} → Step owner careful s (allocate s)
  constructs :
      {s s' : Store} (this : ℕ) (ptr guard : Option ℕ)
      → s.weak_ptrs this ≡ none
      → construct s this ptr guard ≡ done s'
      → Step owner careful s s'
  copy_constructs :
      {s s' : Store} (this src : ℕ)
      → s.weak_ptrs this ≡ none
      → copy_construct owner s this src ≡ done s'
      → Step owner careful s s'
  move_constructs :
      {s s' : Store} (this src : ℕ)
      → owner ≡ true
      → s.weak_ptrs this ≡ none
      → move_construct s this src ≡ done s'
      → Step owner careful s s'
  destroys : {s s' : Store} (this : ℕ) → destroy owner s this ≡ done s' → Step owner careful s s'
  copy_assigns :
      {s s' : Store} (this src : ℕ)
      → copy_assign owner s this src ≡ done s'
      → Step owner careful s s'
  move_assigns :
      {s s' : Store} (this src : ℕ)
      → owner ≡ true
      → move_assign s this src ≡ done s'
      → Step owner careful s s'
  clears : {s : Store} (this : ℕ) → Step owner careful s (clear s this)
  guard_moves :
      {s : Store} (this src : ℕ)
      → (careful ≡ true → s.registered_weak_ptrs this ≡ [])
      → (this == src) ≡ false
      → Step owner careful s (guard_move s this src)

abbrev pub empty_store : Store
empty_store = record {
  weak_ptrs = λ w. none;
  registered_weak_ptrs = λ g. [];
  objects = λ a. false;
  next_object = 1;
}

pub data Reachable (owner careful : Bool) : Store → Type 0 where
  start : Reachable owner careful empty_store
  step :
      {s s' : Store}
      → Reachable owner careful s
      → Step owner careful s s'
      → Reachable owner careful s'

kept : {r : Effect Store} {s : Store} → r ≡ done s → Keeps r → Consistent s
kept e k = rw e at k

copy_assign_kept :
    (owner : Bool) (s : Store) (this src : ℕ) → Consistent s → Keeps (copy_assign owner s this src)
unfolding copy_assign
copy_assign_kept owner s this src c = elim (Option-cases (s.weak_ptrs this)) [
  | inl missing ↦ rw (copy_assign, missing) tt
  | inr (p, here) ↦ elim (Option-cases (s.weak_ptrs src)) [
    | inl missing ↦ rw (copy_assign, here, missing) tt
    | inr (from, there) ↦ copy_assign-Keeps s this src p from owner c here there
  ]
]

move_assign_kept : (s : Store) (this src : ℕ) → Consistent s → Keeps (move_assign s this src)
unfolding move_assign
move_assign_kept s this src c = elim (Option-cases (s.weak_ptrs this)) [
  | inl missing ↦ rw (move_assign, missing) tt
  | inr (p, here) ↦ elim (Option-cases (s.weak_ptrs src)) [
    | inl missing ↦ rw (move_assign, here, missing) tt
    | inr (from, there) ↦ move_assign-Keeps s this src p from c here there
  ]
]

Step-Consistent :
    (owner : Bool) {s s' : Store} → Step owner true s s' → Consistent s → Consistent s'
Step-Consistent owner allocates c = c
Step-Consistent owner {s = s} (constructs this ptr guard new e) c =
    kept e (construct-Keeps s this ptr guard c new)
Step-Consistent owner {s = s} (copy_constructs this src new e) c =
    kept e (copy_construct-Keeps owner s this src c new)
Step-Consistent owner {s = s} (move_constructs this src o new e) c =
    kept e (move_construct-Keeps s this src c new)
Step-Consistent owner {s = s} (destroys this e) c = kept e (destroy-Keeps owner s this c)
Step-Consistent owner {s = s} (copy_assigns this src e) c =
    kept e (copy_assign_kept owner s this src c)
Step-Consistent owner {s = s} (move_assigns this src o e) c = kept e (move_assign_kept s this src c)
Step-Consistent owner {s = s} (clears this) c = clear-Consistent s this c
Step-Consistent owner {s = s} (guard_moves this src new apart) c =
    guard_move-Consistent s this src c (new refl) apart

all_consistent : (owner : Bool) {s : Store} → Reachable owner true s → Consistent s
all_consistent owner start = λ g w. refl
all_consistent owner (step before next) = Step-Consistent owner next (all_consistent owner before)

kept-Sound : {r : Effect Store} {s : Store} → r ≡ done s → KeepsSound r → Sound s
kept-Sound e k = rw e at k

Step-Sound : (owner careful : Bool) {s s' : Store} → Step owner careful s s' → Sound s → Sound s'
Step-Sound owner careful allocates c = c
Step-Sound owner careful {s = s} (constructs this ptr guard new e) c =
    kept-Sound e (construct-Sound s this ptr guard c new)
Step-Sound owner careful {s = s} (copy_constructs this src new e) c =
    kept-Sound e (copy_construct-Sound owner s this src c new)
Step-Sound owner careful {s = s} (move_constructs this src o new e) c =
    kept-Sound e (move_construct-Sound s this src c new)
Step-Sound owner careful {s = s} (destroys this e) c = kept-Sound e (destroy-Sound owner s this c)
Step-Sound owner careful {s = s} (copy_assigns this src e) c =
    kept-Sound e (copy_assign-Sound owner s this src c)
Step-Sound owner careful {s = s} (move_assigns this src o e) c =
    kept-Sound e (move_assign-Sound s this src c)
Step-Sound owner careful {s = s} (clears this) c = clear-Sound s this c
Step-Sound owner careful {s = s} (guard_moves this src new apart) c =
    guard_move-Sound s this src c apart

all-Sound : (owner careful : Bool) {s : Store} → Reachable owner careful s → Sound s
all-Sound owner careful start = λ g w e. absurd cc
all-Sound owner careful (step before next) =
    Step-Sound owner careful next (all-Sound owner careful before)

-- In every store that calls reach, a weak pointer that a guard has registered is there and names that guard, so
-- no registration outlives its pointer. If moreover no guard that held registrations was the target of
-- a guard's move (`careful`), a guard has registered exactly the pointers that name it.
pub Reachable-Consistent :
    (owner careful : Bool) (s : Store) (g w : ℕ)
    → Reachable owner careful s
    → mem (s.registered_weak_ptrs g) w
      ≡ (points (s.weak_ptrs w) g && (careful || mem (s.registered_weak_ptrs g) w))
Reachable-Consistent owner true s g w r = ground (arith, all_consistent owner r g w)
Reachable-Consistent owner false s g w r = ground (arith, all-Sound owner false r g w)

weak-set_guards :
    (ws : List ℕ) (s : Store) (w : ℕ)
    → get (set_guards s ws none) w
      ≡ (if mem ws w then (if alive (s.weak_ptrs w) then invalid_ptr else undefined) else get s w)
unfolding get set_guards set_guard
weak-set_guards [] s w = refl
weak-set_guards (v ∷ ws) s w = ground (arith, weak-set_guards ws (set_guard s v none) w)

-- In every store that calls reach, clearing a guard makes exactly the pointers that it has registered, all of which
-- name it, invalid, and get of every other pointer gives what it gave. If moreover no guard that held registrations
-- was the target of a guard's move (`careful`), these are all the pointers that name it.
pub get-clear :
    (owner careful : Bool) (s : Store) (this w : ℕ)
    → Reachable owner careful s
    → get (clear s this) w ≡ (
        if points (s.weak_ptrs w) this && (careful || mem (s.registered_weak_ptrs this) w)
        then invalid_ptr
        else get s w)
unfolding get clear
get-clear owner careful s this w r = ground (
  arith,
  Reachable-Consistent owner careful s this w r,
  points-alive (s.weak_ptrs w) this,
  weak-set_guards (s.registered_weak_ptrs this) s w,
)

-- Assigning an owner that holds an object to itself reads the object that it has just deleted.
pub copy_assign_self :
    (s : Store) (this a : ℕ) (guard : Option ℕ)
    → s.weak_ptrs this ≡ some (record { ptr = some a; guard = guard })
    → copy_assign true s this this ≡ undefined
unfolding copy_assign assign_ptr delete_ptr copy_ptr
copy_assign_self s this a guard h = ground (arith, h, same_guard_refl guard)

weak-set_guards_other :
    (ws : List ℕ) (s : Store) (guard : Option ℕ) (w : ℕ)
    → mem ws w ≡ false
    → (set_guards s ws guard).weak_ptrs w ≡ s.weak_ptrs w
unfolding set_guards set_guard
weak-set_guards_other [] s guard w h = refl
weak-set_guards_other (v ∷ ws) s guard w h =
    ground (arith, weak-set_guards_other ws (set_guard s v guard) guard w)

-- Moving another guard into a guard leaves the pointers that were registered at the target naming
-- it unregistered, so that clearing it afterwards does not make them invalid.
pub get-clear_after_guard_move :
    (owner : Bool) (s : Store) (this src w : ℕ)
    → Reachable owner true s
    → (this == src) ≡ false
    → points (s.weak_ptrs w) this ≡ true
    → get (clear (guard_move s this src) this) w ≡ get s w
unfolding get clear guard_move
get-clear_after_guard_move owner s this src w r apart h =
    let c = all_consistent owner r in
    let moved = s.registered_weak_ptrs src in
    let s1 = record s {
      registered_weak_ptrs = put (put s.registered_weak_ptrs src []) this moved;
    } in
    let other : mem moved w ≡ false =
      ground (arith, c src w, points_one (s.weak_ptrs w) this src) in
    let here : (guard_move s this src).registered_weak_ptrs this ≡ moved =
      ground (arith, registered-set_guards moved s1 (some this)) in
    rw
      (
        get,
        clear,
        here,
        weak-set_guards_other moved (guard_move s this src) none w other,
        guard_move,
        weak-set_guards_other moved s1 (some this) w other,
      )
      refl
