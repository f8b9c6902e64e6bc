-- ===== src/Utils/WeakPtr/Assigns.antt =====
-- Assignments of weak pointers and the calls of guards keep the registrations sound.
use libhif.Base.{
  ℕ, Bool, true, false, Option, none, some, [], ◌==◌, ◌≡◌, arith, inl, inr, Bool-cases,
  Option-cases,
}
use libhif.Utils.WeakPtr.{
  WeakPtr, Store, Effect, done, invalid_ptr, undefined, put, register_valid, unregister_valid,
  set_guard, set_ptr, delete_ptr, copy_ptr, same_guard, assign_ptr, copy_assign, move_assign, clear,
  guard_move,
}
use libhif.Utils.WeakPtr.Registration.{
  registered-unregister_valid, weak-unregister_valid, delete_ptr_keeps, copy_ptr_keeps,
  Effect-cases,
}
use libhif.Utils.WeakPtr.Lifetime.{same_guard_refl}
use libhif.Utils.WeakPtr.Guards.{points-set_guards, registered-set_guards, points_one, points-alive}
use libhif.Utils.WeakPtr.Sound.{
  Sound, KeepsSound, Unregistered, register-Sound, same-Sound, same-Unregistered, set_ptr-Sound,
  set_ptr-Unregistered, set_guard-Unregistered, unregistered,
}

assign_ptr-Sound :
    (owner : Bool) (s : Store) (this : ℕ) (old ptr : Option ℕ)
    → Sound s
    → KeepsSound (assign_ptr owner s this old ptr)
unfolding assign_ptr
assign_ptr-Sound owner s this old ptr c =
    let s1 = delete_ptr owner s old in
    elim (Effect-cases (copy_ptr owner s1 ptr)) [
      | inl ((s2, ptr'), copied) ↦
          rw (assign_ptr, copied)
            (set_ptr-Sound s2 this ptr' (
              same-Sound s1 s2 (copy_ptr_keeps owner s1 s2 ptr ptr' copied)
                (same-Sound s s1 (delete_ptr_keeps owner s old) c)))
      | inr (inl thrown) ↦ rw (assign_ptr, thrown) tt
      | inr (inr broken) ↦ rw (assign_ptr, broken) tt
    ]

-- The assignment of the pointer and the registration behind it.
assign_then_register :
    (owner : Bool) (s : Store) (this : ℕ) (guard old ptr : Option ℕ)
    → Unregistered this guard s
    → KeepsSound (elim (assign_ptr owner s this old ptr) as (λ _. Effect Store) [
      | done s2 ↦ done (register_valid s2 guard this)
      | invalid_ptr ↦ invalid_ptr
      | undefined ↦ undefined
    ])
unfolding assign_ptr
assign_then_register owner s this guard old ptr free =
    let s1 = delete_ptr owner s old in
    elim (Effect-cases (copy_ptr owner s1 ptr)) [
      | inl ((s2, ptr'), copied) ↦
          rw (assign_ptr, copied)
            (register-Sound (set_ptr s2 this ptr') this guard (
              set_ptr-Unregistered s2 this this guard ptr' (
                same-Unregistered s1 s2 this guard (copy_ptr_keeps owner s1 s2 ptr ptr' copied)
                  (same-Unregistered s s1 this guard (delete_ptr_keeps owner s old) free))))
      | inr (inl thrown) ↦ rw (assign_ptr, thrown) tt
      | inr (inr broken) ↦ rw (assign_ptr, broken) tt
    ]

pub copy_assign-Sound :
    (owner : Bool) (s : Store) (this src : ℕ) → Sound s → KeepsSound (copy_assign owner s this src)
unfolding copy_assign
copy_assign-Sound owner s this src c = elim (Option-cases (s.weak_ptrs this)) [
  | inl missing ↦ rw (copy_assign, missing) tt
  | inr (p, here) ↦ elim (Option-cases (s.weak_ptrs src)) [
    | inl missing ↦ rw (copy_assign, here, missing) tt
    | inr (from, there) ↦ elim (Bool-cases (same_guard p.guard from.guard)) [
      | inl same ↦
          rw (copy_assign, here, there, same) (assign_ptr-Sound owner s this p.ptr from.ptr c)
      | inr other ↦
          rw (copy_assign, here, there, other)
            (assign_then_register owner
              (set_guard (unregister_valid s p.guard this) this from.guard) this from.guard p.ptr
              from.ptr (set_guard-Unregistered s this p from.guard c here))
    ]
  ]
]

moved-Unregistered :
    (s : Store) (this src : ℕ) (p from : WeakPtr)
    → Sound s
    → s.weak_ptrs this ≡ some p
    → s.weak_ptrs src ≡ some from
    → (this == src) ≡ false
    → Unregistered this from.guard (
        set_guard
          (set_guard
            (unregister_valid (unregister_valid s p.guard this) from.guard src)
            this
            from.guard)
          src
          none)
unfolding set_guard
moved-Unregistered s this src p from c here there apart =
    let s1 = unregister_valid s p.guard this in
    (
      (λ g w. ground (
        arith,
        c g src,
        unregistered s this g w p c here,
        unregistered s this g src p c here,
        registered-unregister_valid s1 from.guard src g w,
        weak-unregister_valid s p.guard this,
        weak-unregister_valid s1 from.guard src,
        here,
        there,
      )),
      (λ g. ground (
        arith,
        unregistered s this g this p c here,
        registered-unregister_valid s1 from.guard src g this,
      )),
      λ g. ground (
        arith,
        here,
        apart,
        weak-unregister_valid s p.guard this,
        weak-unregister_valid s1 from.guard src,
      ),
    )

pub move_assign-Sound : (s : Store) (this src : ℕ) → Sound s → KeepsSound (move_assign s this src)
unfolding move_assign
move_assign-Sound s this src c = elim (Option-cases (s.weak_ptrs this)) [
  | inl missing ↦ rw (move_assign, missing) tt
  | inr (p, here) ↦ elim (Option-cases (s.weak_ptrs src)) [
    | inl missing ↦ rw (move_assign, here, missing) tt
    | inr (from, there) ↦ elim (Bool-cases (same_guard p.guard from.guard)) [
      | inl same ↦
          let s1 = set_guard (unregister_valid s from.guard src) src none in
          let s2 = delete_ptr true s1 p.ptr in
          rw (move_assign, here, there, same)
            (set_ptr-Sound (set_ptr s2 this from.ptr) src none (
              set_ptr-Sound s2 this from.ptr (
                same-Sound s1 s2 (delete_ptr_keeps true s1 p.ptr)
                  (set_guard-Unregistered s src from none c there).0)))
      | inr other ↦
          let s1 = unregister_valid (unregister_valid s p.guard this) from.guard src in
          let s2 = set_guard (set_guard s1 this from.guard) src none in
          let s3 = delete_ptr true s2 p.ptr in
          let s4 = set_ptr s3 this from.ptr in
          rw (move_assign, here, there, other)
            (register-Sound (set_ptr s4 src none) this from.guard (
              set_ptr-Unregistered s4 this src from.guard none (
                set_ptr-Unregistered s3 this this from.guard from.ptr (
                  same-Unregistered s2 s3 this from.guard (delete_ptr_keeps true s2 p.ptr) (
                    moved-Unregistered s this src p from c here there
                      (ground (arith, here, there, other, same_guard_refl p.guard)))))))
    ]
  ]
]

pub clear-Sound : (s : Store) (this : ℕ) → Sound s → Sound (clear s this)
unfolding clear
clear-Sound s this c = λ g w. ground (
  arith,
  c g w,
  c this w,
  points-set_guards (s.registered_weak_ptrs this) s none w g,
  registered-set_guards (s.registered_weak_ptrs this) s none,
  points_one (s.weak_ptrs w) g this,
)

pub guard_move-Sound :
    (s : Store) (this src : ℕ) → Sound s → (this == src) ≡ false → Sound (guard_move s this src)
unfolding guard_move
guard_move-Sound s this src c apart = λ g w.
    let moved = s.registered_weak_ptrs src in
    let s1 = record s {
      registered_weak_ptrs = put (put s.registered_weak_ptrs src []) this moved;
    } in
    ground (
      arith,
      c g w,
      c src w,
      points-set_guards moved s1 (some this) w g,
      registered-set_guards moved s1 (some this),
      points_one (s.weak_ptrs w) g src,
      points-alive (s.weak_ptrs w) src,
    )
