-- ===== src/Utils/WeakPtr/Registration.antt =====
-- Every weak pointer is registered exactly at the guard it names, so a guard can invalidate all of them.
use libhif.Base.{
  ℕ, Bool, true, false, not, ◌&&◌, ◌||◌, Option, none, some, List, [], ◌∷◌, ◌==◌, ◌≡◌, refl, arith,
  inl, inr, Option-cases, ◌⊎◌,
}
use libhif.Utils.WeakPtr.{
  WeakPtr, Store, Effect, done, invalid_ptr, undefined, put, mem, insert, erase, register_valid,
  unregister_valid, set_guard, set_ptr, delete_ptr, copy_ptr, construct, copy_construct, same_guard,
  assign_ptr,
}

-- Does a guard member name this guard?
abbrev pub names : Option ℕ → ℕ → Bool
names none g = false
names (some h) g = h == g

abbrev pub points : Option WeakPtr → ℕ → Bool
points none g = false
points (some p) g = names p.guard g

abbrev pub Consistent : Store → Type 0
Consistent s = (g w : ℕ) → mem (s.registered_weak_ptrs g) w ≡ points (s.weak_ptrs w) g

pub mem-erase : (ws : List ℕ) (w v : ℕ) → mem (erase ws w) v ≡ (not (w == v) && mem ws v)
unfolding erase
mem-erase [] w v = ground arith
mem-erase (x ∷ ws) w v = ground (arith, mem-erase ws w v)

pub mem-insert : (ws : List ℕ) (w v : ℕ) → mem (insert ws w) v ≡ (w == v || mem ws v)
mem-insert ws w v = ground arith

pub registered-unregister_valid :
    (s : Store) (guard : Option ℕ) (this g w : ℕ)
    → mem ((unregister_valid s guard this).registered_weak_ptrs g) w
      ≡ (not (names guard g && this == w) && mem (s.registered_weak_ptrs g) w)
unfolding unregister_valid
registered-unregister_valid s none this g w = ground arith
registered-unregister_valid s (some h) this g w =
    ground (arith, mem-erase (s.registered_weak_ptrs h) this w)

pub registered-register_valid :
    (s : Store) (guard : Option ℕ) (this g w : ℕ)
    → mem ((register_valid s guard this).registered_weak_ptrs g) w
      ≡ ((names guard g && this == w) || mem (s.registered_weak_ptrs g) w)
unfolding register_valid
registered-register_valid s none this g w = ground arith
registered-register_valid s (some h) this g w =
    ground (arith, mem-insert (s.registered_weak_ptrs h) this w)

-- The parts of the store that an operation leaves alone.
pub weak-register_valid :
    (s : Store) (guard : Option ℕ) (this : ℕ)
    → (register_valid s guard this).weak_ptrs ≡ s.weak_ptrs
unfolding register_valid
weak-register_valid s none this = refl
weak-register_valid s (some g) this = refl

pub weak-unregister_valid :
    (s : Store) (guard : Option ℕ) (this : ℕ)
    → (unregister_valid s guard this).weak_ptrs ≡ s.weak_ptrs
unfolding unregister_valid
weak-unregister_valid s none this = refl
weak-unregister_valid s (some g) this = refl

pub delete_ptr_keeps :
    (owner : Bool) (s : Store) (ptr : Option ℕ)
    → ((delete_ptr owner s ptr).weak_ptrs ≡ s.weak_ptrs)
      × ((delete_ptr owner s ptr).registered_weak_ptrs ≡ s.registered_weak_ptrs)
unfolding delete_ptr
delete_ptr_keeps owner s none = (refl, refl)
delete_ptr_keeps true s (some a) = (refl, refl)
delete_ptr_keeps false s (some a) = (refl, refl)

-- what two stores have in common when only their objects differ
abbrev pub SameWeak : Store → Store → Type 0
SameWeak s s' = (s'.weak_ptrs ≡ s.weak_ptrs) × (s'.registered_weak_ptrs ≡ s.registered_weak_ptrs)

pub copy_ptr_keeps :
    (owner : Bool) (s s' : Store) (ptr ptr' : Option ℕ)
    → copy_ptr owner s ptr ≡ done (s', ptr')
    → SameWeak s s'
unfolding copy_ptr
copy_ptr_keeps owner s s' none ptr' h = ground (arith, h)
copy_ptr_keeps owner s s' (some a) ptr' h = ground (arith, h)

pub same_guard_eq : (g h : Option ℕ) → same_guard g h ≡ true → g ≡ h
same_guard_eq none none e = refl
same_guard_eq none (some h) e = absurd cc
same_guard_eq (some g) none e = absurd cc
same_guard_eq (some g) (some h) e = ground arith

-- Whatever store a call returns is consistent.
abbrev pub Keeps : Effect Store → Type 0
Keeps (done s) = Consistent s
Keeps invalid_ptr = Unit
Keeps undefined = Unit

pub construct-Keeps :
    (s : Store) (this : ℕ) (ptr guard : Option ℕ)
    → Consistent s
    → s.weak_ptrs this ≡ none
    → Keeps (construct s this ptr guard)
unfolding construct
construct-Keeps s this none guard c new = tt
construct-Keeps s this (some a) none c new = tt
construct-Keeps s this (some a) (some k) c new =
    λ g w. ground (arith, c g w, c g this, mem-insert (s.registered_weak_ptrs k) this w)

pub Effect-cases :
    {A : Type 0} (r : Effect A) → ((a : A) × (r ≡ done a)) ⊎ ((r ≡ invalid_ptr) ⊎ (r ≡ undefined))
Effect-cases (done a) = inl (a, refl)
Effect-cases invalid_ptr = inr (inl refl)
Effect-cases undefined = inr (inr refl)

-- A pointer that is not there yet, or names no guard, takes a guard and registers at it.
pub register-Consistent :
    (s s' : Store) (this : ℕ) (guard ptr : Option ℕ)
    → Consistent s
    → SameWeak s s'
    → ((g : ℕ) → points (s.weak_ptrs this) g ≡ false)
    → Consistent (
        register_valid
          (record s' {
            weak_ptrs = put s'.weak_ptrs this (some (record { ptr = ptr; guard = guard }));
          })
          guard
          this)
register-Consistent s s' this guard ptr c same free = λ g w.
    let s1 = record s' {
      weak_ptrs = put s'.weak_ptrs this (some (record { ptr = ptr; guard = guard }));
    } in
    rw
      (
        registered-register_valid s1 guard this g w,
        weak-register_valid s1 guard this,
        same.0,
        same.1,
      )
      (ground (arith, c g w, free g))

pub copy_construct-Keeps :
    (owner : Bool) (s : Store) (this src : ℕ)
    → Consistent s
    → s.weak_ptrs this ≡ none
    → Keeps (copy_construct owner s this src)
unfolding copy_construct
copy_construct-Keeps owner s this src c new = elim (Option-cases (s.weak_ptrs src)) [
  | inl missing ↦ rw (copy_construct, missing) tt
  | inr (from, there) ↦ elim (Effect-cases (copy_ptr owner s from.ptr)) [
    | inl ((s1, ptr), copied) ↦
        rw (copy_construct, there, copied)
          (register-Consistent s s1 this from.guard ptr c
            (copy_ptr_keeps owner s s1 from.ptr ptr copied) (λ g. rw new refl))
    | inr (inl thrown) ↦ rw (copy_construct, there, thrown) tt
    | inr (inr broken) ↦ rw (copy_construct, there, broken) tt
  ]
]

pub unregister-keeps :
    (s : Store) (this g w : ℕ) (p : WeakPtr)
    → Consistent s
    → s.weak_ptrs this ≡ some p
    → mem ((unregister_valid s p.guard this).registered_weak_ptrs g) w
      ≡ (not (this == w) && points (s.weak_ptrs w) g)
unregister-keeps s this g w p c there =
    rw (registered-unregister_valid s p.guard this g w) (ground (arith, c g w, c g this, there))

-- A pointer that is unregistered and then names no guard.
pub release-Consistent :
    (s : Store) (this : ℕ) (p : WeakPtr)
    → Consistent s
    → s.weak_ptrs this ≡ some p
    → Consistent (set_guard (unregister_valid s p.guard this) this none)
unfolding set_guard
release-Consistent s this p c there = λ g w. ground (
  arith,
  there,
  c g w,
  unregister-keeps s this g w p c there,
  weak-unregister_valid s p.guard this,
)

pub set_ptr-Consistent :
    (s : Store) (w : ℕ) (ptr : Option ℕ) → Consistent s → Consistent (set_ptr s w ptr)
unfolding set_ptr
set_ptr-Consistent s this ptr c = λ g w. ground (arith, c g w, c g this)

pub delete_ptr-Consistent :
    (owner : Bool) (s : Store) (ptr : Option ℕ) → Consistent s → Consistent (delete_ptr owner s ptr)
unfolding delete_ptr
delete_ptr-Consistent owner s none c = c
delete_ptr-Consistent true s (some a) c = c
delete_ptr-Consistent false s (some a) c = c

pub same-Consistent : (s s' : Store) → SameWeak s s' → Consistent s → Consistent s'
same-Consistent s s' same c g w = rw (same.0, same.1) (c g w)

pub assign_ptr-Keeps :
    (owner : Bool) (s : Store) (this : ℕ) (old ptr : Option ℕ)
    → Consistent s
    → Keeps (assign_ptr owner s this old ptr)
unfolding assign_ptr
assign_ptr-Keeps owner s this old ptr c =
    let s1 = delete_ptr owner s old in
    elim (Effect-cases (copy_ptr owner s1 ptr)) [
      | inl ((s2, ptr'), copied) ↦
          rw (assign_ptr, copied)
            (set_ptr-Consistent s2 this ptr' (
              same-Consistent s1 s2 (copy_ptr_keeps owner s1 s2 ptr ptr' copied)
                (delete_ptr-Consistent owner s old c)))
      | inr (inl thrown) ↦ rw (assign_ptr, thrown) tt
      | inr (inr broken) ↦ rw (assign_ptr, broken) tt
    ]
