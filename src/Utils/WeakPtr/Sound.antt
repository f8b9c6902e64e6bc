-- ===== src/Utils/WeakPtr/Sound.antt =====
-- A registered weak pointer is there and names the guard that has registered it: what every operation keeps, also a
-- guard's move onto a guard in use.
use libhif.Base.{
  ℕ, Bool, true, false, Option, none, some, ◌==◌, ◌≡◌, refl, arith, inl, inr, Option-cases,
}
use libhif.Utils.WeakPtr.{
  WeakPtr, Store, Effect, done, invalid_ptr, undefined, put, mem, register_valid, unregister_valid,
  set_guard, set_ptr, copy_ptr, construct, copy_construct, move_construct, destroy,
}
use libhif.Utils.WeakPtr.Registration.{
  names, points, SameWeak, mem-insert, registered-unregister_valid, registered-register_valid,
  weak-register_valid, weak-unregister_valid, delete_ptr_keeps, copy_ptr_keeps, Effect-cases,
}

abbrev pub Sound : Store → Type 0
Sound s = (g w : ℕ) → mem (s.registered_weak_ptrs g) w ≡ true → points (s.weak_ptrs w) g ≡ true

-- Whatever store a call returns is sound.
abbrev pub KeepsSound : Effect Store → Type 0
KeepsSound (done s) = Sound s
KeepsSound invalid_ptr = Unit
KeepsSound undefined = Unit

pub construct-Sound :
    (s : Store) (this : ℕ) (ptr guard : Option ℕ)
    → Sound s
    → s.weak_ptrs this ≡ none
    → KeepsSound (construct s this ptr guard)
unfolding construct
construct-Sound s this none guard c new = tt
construct-Sound s this (some a) none c new = tt
construct-Sound s this (some a) (some k) c new =
    λ g w. ground (arith, c g w, c g this, new, mem-insert (s.registered_weak_ptrs k) this w)

-- The pointer names `guard` and is registered nowhere.
abbrev pub Unregistered : ℕ → Option ℕ → Store → Type 0
Unregistered this guard s =
    Sound s
    × ((g : ℕ) → mem (s.registered_weak_ptrs g) this ≡ false)
    × ((g : ℕ) → points (s.weak_ptrs this) g ≡ names guard g)

pub register-Sound :
    (s : Store) (this : ℕ) (guard : Option ℕ)
    → Unregistered this guard s
    → Sound (register_valid s guard this)
register-Sound s this guard (others, free, mine) g w =
    rw (registered-register_valid s guard this g w, weak-register_valid s guard this)
      (ground (arith, others g w, free g, mine g))

pub same-Sound : (s s' : Store) → SameWeak s s' → Sound s → Sound s'
same-Sound s s' same c g w = rw (same.0, same.1) (c g w)

pub same-Unregistered :
    (s s' : Store) (this : ℕ) (guard : Option ℕ)
    → SameWeak s s'
    → Unregistered this guard s
    → Unregistered this guard s'
same-Unregistered s s' this guard same (others, free, mine) =
    (same-Sound s s' same others, (λ g. rw same.1 (free g)), λ g. rw same.0 (mine g))

pub set_ptr-Sound : (s : Store) (w : ℕ) (ptr : Option ℕ) → Sound s → Sound (set_ptr s w ptr)
unfolding set_ptr
set_ptr-Sound s this ptr c = λ g w. ground (arith, c g w, c g this)

pub set_ptr-Unregistered :
    (s : Store) (this w : ℕ) (guard ptr : Option ℕ)
    → Unregistered this guard s
    → Unregistered this guard (set_ptr s w ptr)
unfolding set_ptr
set_ptr-Unregistered s this w guard ptr (others, free, mine) =
    (set_ptr-Sound s w ptr others, (λ g. ground (arith, free g)), λ g. ground (arith, mine g))

-- A new pointer, or a pointer whose guard changes, behind its unregistration.
new-Unregistered :
    (s s' : Store) (this : ℕ) (ptr guard : Option ℕ)
    → Sound s
    → SameWeak s s'
    → ((g : ℕ) → points (s.weak_ptrs this) g ≡ false)
    → Unregistered this guard (record s' {
      weak_ptrs = put s'.weak_ptrs this (some (record { ptr = ptr; guard = guard }));
    })
new-Unregistered s s' this ptr guard c same free = (
  (λ g w. rw (same.0, same.1) (ground (arith, c g w, c g this, free g))),
  (λ g. rw same.1 (ground (arith, c g this, free g))),
  λ g. ground arith,
)

pub unregistered :
    (s : Store) (this g w : ℕ) (p : WeakPtr)
    → Sound s
    → s.weak_ptrs this ≡ some p
    → mem ((unregister_valid s p.guard this).registered_weak_ptrs g) w ≡ true
    → (points (s.weak_ptrs w) g ≡ true) × ((this == w) ≡ false)
unregistered s this g w p c there h =
    ground (arith, h, registered-unregister_valid s p.guard this g w, c g w, c g this, there)

pub set_guard-Unregistered :
    (s : Store) (this : ℕ) (p : WeakPtr) (guard : Option ℕ)
    → Sound s
    → s.weak_ptrs this ≡ some p
    → Unregistered this guard (set_guard (unregister_valid s p.guard this) this guard)
unfolding set_guard
set_guard-Unregistered s this p guard c there = (
  (λ g w. ground (arith, unregistered s this g w p c there, weak-unregister_valid s p.guard this)),
  (λ g. ground (arith, unregistered s this g this p c there)),
  λ g. ground (arith, there, weak-unregister_valid s p.guard this),
)

pub copy_construct-Sound :
    (owner : Bool) (s : Store) (this src : ℕ)
    → Sound s
    → s.weak_ptrs this ≡ none
    → KeepsSound (copy_construct owner s this src)
unfolding copy_construct
copy_construct-Sound owner s this src c new = elim (Option-cases (s.weak_ptrs src)) [
  | inl missing ↦ rw (copy_construct, missing) tt
  | inr (from, there) ↦ elim (Effect-cases (copy_ptr owner s from.ptr)) [
    | inl ((s1, ptr), copied) ↦
        rw (copy_construct, there, copied)
          (register-Sound _ this from.guard (
            new-Unregistered s s1 this ptr from.guard c
              (copy_ptr_keeps owner s s1 from.ptr ptr copied) (λ g. rw new refl)))
    | inr (inl thrown) ↦ rw (copy_construct, there, thrown) tt
    | inr (inr broken) ↦ rw (copy_construct, there, broken) tt
  ]
]

pub destroy-Sound :
    (owner : Bool) (s : Store) (this : ℕ) → Sound s → KeepsSound (destroy owner s this)
unfolding destroy
destroy-Sound owner s this c = elim (Option-cases (s.weak_ptrs this)) [
  | inl missing ↦ rw (destroy, missing) tt
  | inr (p, there) ↦
      let s0 = unregister_valid s p.guard this in
      let (weak, registered) = delete_ptr_keeps owner s0 p.ptr in
      rw (destroy, there, weak, registered)
        (λ g w.
          ground (arith, unregistered s this g w p c there, weak-unregister_valid s p.guard this))
]

pub move_construct-Sound :
    (s : Store) (this src : ℕ)
    → Sound s
    → s.weak_ptrs this ≡ none
    → KeepsSound (move_construct s this src)
unfolding move_construct set_guard set_ptr
move_construct-Sound s this src c new = elim (Option-cases (s.weak_ptrs src)) [
  | inl missing ↦ rw (move_construct, missing) tt
  | inr (from, there) ↦
      let s1 = set_guard (unregister_valid s from.guard src) src none in
      let s2 = set_ptr s1 src none in
      let c2 : Sound s2 =
        set_ptr-Sound s1 src none (set_guard-Unregistered s src from none c there).0 in
      rw (move_construct, there)
        (register-Sound _ this from.guard (
          new-Unregistered s2 s2 this from.ptr from.guard c2 (refl, refl)
            (λ g. ground (arith, new, there, weak-unregister_valid s from.guard src))))
]
