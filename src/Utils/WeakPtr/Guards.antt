-- ===== src/Utils/WeakPtr/Guards.antt =====
-- What a guard's clear and move do to the weak pointers.
use libhif.Base.{
  ℕ, Bool, true, false, ◌&&◌, Option, none, some, List, [], ◌∷◌, ◌==◌, if◌then◌else◌, ◌≡◌, refl,
  arith,
}
use libhif.Utils.WeakPtr.{WeakPtr, Store, put, mem, set_guard, set_guards, clear, guard_move}
use libhif.Utils.WeakPtr.Registration.{names, points, Consistent}

-- Is there a pointer?
abbrev pub alive : Option WeakPtr → Bool
alive none = false
alive (some p) = true

pub points-set_guards :
    (ws : List ℕ) (s : Store) (guard : Option ℕ) (w g : ℕ)
    → points ((set_guards s ws guard).weak_ptrs w) g
      ≡ (if mem ws w then alive (s.weak_ptrs w) && names guard g else points (s.weak_ptrs w) g)
unfolding set_guards set_guard
points-set_guards [] s guard w g = refl
points-set_guards (v ∷ ws) s guard w g =
    ground (arith, points-set_guards ws (set_guard s v guard) guard w g)

pub registered-set_guards :
    (ws : List ℕ) (s : Store) (guard : Option ℕ)
    → (set_guards s ws guard).registered_weak_ptrs ≡ s.registered_weak_ptrs
unfolding set_guards set_guard
registered-set_guards [] s guard = refl
registered-set_guards (v ∷ ws) s guard = registered-set_guards ws (set_guard s v guard) guard

pub points-alive : (o : Option WeakPtr) (g : ℕ) → points o g ≡ true → alive o ≡ true
points-alive none g h = absurd cc
points-alive (some p) g h = refl

pub points_one : (o : Option WeakPtr) (g h : ℕ) → points o g ≡ true → points o h ≡ true → g ≡ h
points_one none g h a b = absurd cc
points_one (some p) g h a b = one p.guard g h a b
  where
    one : (o : Option ℕ) (g h : ℕ) → names o g ≡ true → names o h ≡ true → g ≡ h
    one none g h a b = absurd cc
    one (some k) g h a b = ground arith

pub clear-Consistent : (s : Store) (this : ℕ) → Consistent s → Consistent (clear s this)
unfolding clear
clear-Consistent s this c = λ g w. ground (
  arith,
  c g w,
  c this w,
  points-set_guards (s.registered_weak_ptrs this) s none w g,
  registered-set_guards (s.registered_weak_ptrs this) s none,
  points_one (s.weak_ptrs w) g this,
)

pub guard_move-Consistent :
    (s : Store) (this src : ℕ)
    → Consistent s
    → s.registered_weak_ptrs this ≡ []
    → (this == src) ≡ false
    → Consistent (guard_move s this src)
unfolding guard_move
guard_move-Consistent s this src c new apart = λ g w.
    let moved = s.registered_weak_ptrs src in
    let s1 = record s {
      registered_weak_ptrs = put (put s.registered_weak_ptrs src []) this moved;
    } in
    ground (
      arith,
      c g w,
      c src w,
      c this w,
      new,
      points-set_guards moved s1 (some this) w g,
      registered-set_guards moved s1 (some this),
      points_one (s.weak_ptrs w) g src,
      points-alive (s.weak_ptrs w) src,
    )
