-- ===== src/Utils/WeakPtr.antt =====
-- include/libdnf/utils/weak_ptr.hpp: WeakPtrGuard and WeakPtr on a store of weak pointers, guards and
-- the objects they point to, all named by addresses. An std::unordered_set is a list of which order
-- and repetition mean nothing; one that was moved from is empty. `owner` is the template's flag.
pub mod Registration
mod Lifetime
mod Guards
mod Sound
mod Assigns
mod Reachable
mod Tests
use libhif.Base.{
  ℕ, ◌+◌, Bool, true, false, ◌||◌, Option, none, some, List, [], ◌∷◌, ◌==◌, if◌then◌else◌,
}

pub record WeakPtr : Type 0 where
  pub ptr : Option ℕ
  pub guard : Option ℕ

pub record Store : Type 0 where
  pub weak_ptrs : ℕ → Option WeakPtr
  pub registered_weak_ptrs : ℕ → List ℕ
  pub objects : ℕ → Bool
  pub next_object : ℕ

-- what a call does: it returns, throws InvalidPtr, or reads memory that is not there
pub data Effect {ℓ} (A : Type ℓ) : Type ℓ where
  done : A → Effect A
  invalid_ptr undefined : Effect A

abbrev pub put {ℓ} : {A : Type ℓ} → (ℕ → A) → ℕ → A → ℕ → A
put f a v x = if x == a then v else f x

abbrev pub mem : List ℕ → ℕ → Bool
mem [] w = false
mem (v ∷ ws) w = v == w || mem ws w

-- std::unordered_set::insert
abbrev pub insert : List ℕ → ℕ → List ℕ
insert ws w = if mem ws w then ws else w ∷ ws

-- std::unordered_set::erase
pub erase : List ℕ → ℕ → List ℕ
erase [] w = []
erase (v ∷ ws) w = let rest = erase ws w in if v == w then rest else v ∷ rest

abbrev pub register_ptr : Store → ℕ → ℕ → Store
register_ptr s guard w = record s {
  registered_weak_ptrs = put s.registered_weak_ptrs guard (insert (s.registered_weak_ptrs guard) w);
}

abbrev pub unregister_ptr : Store → ℕ → ℕ → Store
unregister_ptr s guard w = record s {
  registered_weak_ptrs = put s.registered_weak_ptrs guard (erase (s.registered_weak_ptrs guard) w);
}

-- `if (is_valid()) guard->register_ptr(this);`
pub register_valid : Store → Option ℕ → ℕ → Store
register_valid s none this = s
register_valid s (some guard) this = register_ptr s guard this

pub unregister_valid : Store → Option ℕ → ℕ → Store
unregister_valid s none this = s
unregister_valid s (some guard) this = unregister_ptr s guard this

-- an assignment to a member of a weak pointer
abbrev with_guard : Option ℕ → Option WeakPtr → Option WeakPtr
with_guard guard none = none
with_guard guard (some p) = some (record p { guard = guard })

abbrev with_ptr : Option ℕ → Option WeakPtr → Option WeakPtr
with_ptr ptr none = none
with_ptr ptr (some p) = some (record p { ptr = ptr })

pub set_guard : Store → ℕ → Option ℕ → Store
set_guard s w guard = record s { weak_ptrs = put s.weak_ptrs w (with_guard guard (s.weak_ptrs w)) }

pub set_ptr : Store → ℕ → Option ℕ → Store
set_ptr s w ptr = record s { weak_ptrs = put s.weak_ptrs w (with_ptr ptr (s.weak_ptrs w)) }

-- `new TPtr(…)`
abbrev pub allocate : Store → Store
allocate s = record s {
  objects = put s.objects s.next_object true;
  next_object = s.next_object + 1;
}

-- `delete ptr` of an owner
pub delete_ptr : Bool → Store → Option ℕ → Store
delete_ptr owner s none = s
delete_ptr owner s (some a) = if owner then record s { objects = put s.objects a false } else s

-- `src.ptr ? new TPtr(*src.ptr) : nullptr` of an owner, `src.ptr` else
pub copy_ptr : Bool → Store → Option ℕ → Effect (Store × Option ℕ)
copy_ptr owner s none = done (s, none)
copy_ptr owner s (some a) =
    if owner
    then if s.objects a then done (allocate s, some s.next_object) else undefined
    else done (s, some a)

-- the operations of WeakPtr

pub construct : Store → ℕ → Option ℕ → Option ℕ → Effect Store
construct s this none guard = invalid_ptr
construct s this (some a) none = invalid_ptr
construct s this (some a) (some g) = done (
    register_ptr
      (record s {
        weak_ptrs = put s.weak_ptrs this (some (record { ptr = some a; guard = some g }));
      })
      g this)

pub copy_construct : Bool → Store → ℕ → ℕ → Effect Store
copy_construct owner s this src = elim (s.weak_ptrs src) [
  | none ↦ undefined
  | some from ↦ elim (copy_ptr owner s from.ptr) [
    | done (s', ptr) ↦ done (
        register_valid
          (record s' {
            weak_ptrs = put s'.weak_ptrs this (some (record { ptr = ptr; guard = from.guard }));
          })
          from.guard this)
    | invalid_ptr ↦ invalid_ptr
    | undefined ↦ undefined
  ]
]

-- of an owner
pub move_construct : Store → ℕ → ℕ → Effect Store
move_construct s this src = elim (s.weak_ptrs src) [
  | none ↦ undefined
  | some from ↦
      let s1 = set_guard (unregister_valid s from.guard src) src none in
      let s2 = set_ptr s1 src none in
      let s3 = record s2 { weak_ptrs = put s2.weak_ptrs this (some from) } in
      done (register_valid s3 from.guard this)
]

pub destroy : Bool → Store → ℕ → Effect Store
destroy owner s this = elim (s.weak_ptrs this) [
  | none ↦ undefined
  | some p ↦
      let s1 = delete_ptr owner (unregister_valid s p.guard this) p.ptr in
      done (record s1 { weak_ptrs = put s1.weak_ptrs this none })
]

abbrev pub same_guard : Option ℕ → Option ℕ → Bool
same_guard none none = true
same_guard none (some h) = false
same_guard (some g) none = false
same_guard (some g) (some h) = g == h

-- `delete ptr` of an owner and the new value of `ptr`
pub assign_ptr : Bool → Store → ℕ → Option ℕ → Option ℕ → Effect Store
assign_ptr owner s this old ptr = elim (copy_ptr owner (delete_ptr owner s old) ptr) [
  | done (s', ptr') ↦ done (set_ptr s' this ptr')
  | invalid_ptr ↦ invalid_ptr
  | undefined ↦ undefined
]

pub copy_assign : Bool → Store → ℕ → ℕ → Effect Store
copy_assign owner s this src = elim (s.weak_ptrs this) [
  | none ↦ undefined
  | some p ↦ elim (s.weak_ptrs src) [
    | none ↦ undefined
    | some from ↦
        if same_guard p.guard from.guard
        then assign_ptr owner s this p.ptr from.ptr
        else let s1 = set_guard (unregister_valid s p.guard this) this from.guard in
          elim (assign_ptr owner s1 this p.ptr from.ptr) [
            | done s2 ↦ done (register_valid s2 from.guard this)
            | invalid_ptr ↦ invalid_ptr
            | undefined ↦ undefined
          ]
  ]
]

-- of an owner
pub move_assign : Store → ℕ → ℕ → Effect Store
move_assign s this src = elim (s.weak_ptrs this) [
  | none ↦ undefined
  | some p ↦ elim (s.weak_ptrs src) [
    | none ↦ undefined
    | some from ↦
        if same_guard p.guard from.guard
        then (let s1 = set_guard (unregister_valid s from.guard src) src none in
            done (set_ptr (set_ptr (delete_ptr true s1 p.ptr) this from.ptr) src none))
        else let s1 = unregister_valid (unregister_valid s p.guard this) from.guard src in
          let s2 = set_guard (set_guard s1 this from.guard) src none in
          let s3 = set_ptr (set_ptr (delete_ptr true s2 p.ptr) this from.ptr) src none in
          done (register_valid s3 from.guard this)
  ]
]

pub get : Store → ℕ → Effect (Option ℕ)
get s this = elim (s.weak_ptrs this) [
  | none ↦ undefined
  | some p ↦ elim p.guard [ none ↦ invalid_ptr | some g ↦ done p.ptr ]
]

-- the operations of WeakPtrGuard

-- the loop that sets the guard of every registered pointer
pub set_guards : Store → List ℕ → Option ℕ → Store
set_guards s [] guard = s
set_guards s (w ∷ ws) guard = set_guards (set_guard s w guard) ws guard

-- clear(), and the destructor
pub clear : Store → ℕ → Store
clear s this =
    let s1 = set_guards s (s.registered_weak_ptrs this) none in
    record s1 { registered_weak_ptrs = put s1.registered_weak_ptrs this [] }

-- the move constructor and the move assignment, which have the same body
pub guard_move : Store → ℕ → ℕ → Store
guard_move s this src =
    let moved = s.registered_weak_ptrs src in
    let s1 = record s {
      registered_weak_ptrs = put (put s.registered_weak_ptrs src []) this moved;
    } in
    set_guards s1 moved (some this)
