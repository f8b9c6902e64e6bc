-- ===== src/Utils/WeakPtr/Lifetime.antt =====
-- Moves, assignments and the end of weak pointers and guards keep the registration.
use libhif.Base.{
  ℕ, Bool, true, false, not, ◌&&◌, Option, none, some, ◌==◌, ◌≡◌, refl, arith, inl, inr, Bool-cases,
  Option-cases,
}
use libhif.Utils.WeakPtr.{
  WeakPtr, Store, Effect, done, invalid_ptr, undefined, mem, register_valid, unregister_valid,
  set_guard, set_ptr, delete_ptr, copy_ptr, move_construct, destroy, same_guard, assign_ptr,
  copy_assign, move_assign,
}
use libhif.Utils.WeakPtr.Registration.{
  names, points, Consistent, Keeps, SameWeak, registered-unregister_valid,
  registered-register_valid, weak-register_valid, weak-unregister_valid, delete_ptr_keeps,
  copy_ptr_keeps, Effect-cases, register-Consistent, unregister-keeps, release-Consistent,
  set_ptr-Consistent, delete_ptr-Consistent, assign_ptr-Keeps,
}

pub destroy-Keeps :
    (owner : Bool) (s : Store) (this : ℕ) → Consistent s → Keeps (destroy owner s this)
unfolding destroy
destroy-Keeps owner s this c = elim (Option-cases (s.weak_ptrs this)) [
  | inl missing ↦ rw (destroy, missing) tt
  | inr (p, there) ↦
      let s0 = unregister_valid s p.guard this in
      let (weak, registered) = delete_ptr_keeps owner s0 p.ptr in
      rw (destroy, there, weak, registered)
        (λ g w. ground (
          arith,
          c g w,
          unregister-keeps s this g w p c there,
          weak-unregister_valid s p.guard this,
        ))
]

pub move_construct-Keeps :
    (s : Store) (this src : ℕ)
    → Consistent s
    → s.weak_ptrs this ≡ none
    → Keeps (move_construct s this src)
unfolding move_construct set_guard set_ptr
move_construct-Keeps s this src c new = elim (Option-cases (s.weak_ptrs src)) [
  | inl missing ↦ rw (move_construct, missing) tt
  | inr (from, there) ↦
      let s1 = set_guard (unregister_valid s from.guard src) src none in
      let s2 = set_ptr s1 src none in
      let c2 : Consistent s2 =
        set_ptr-Consistent s1 src none (release-Consistent s src from c there) in
      rw (move_construct, there)
        (register-Consistent s2 s2 this from.guard from.ptr c2 (refl, refl)
          (λ g. ground (arith, new, there, weak-unregister_valid s from.guard src)))
]

-- The pointer names `guard` and is registered nowhere.
abbrev Pending : ℕ → Option ℕ → Store → Type 0
Pending this guard s =
    ((g w : ℕ) → mem (s.registered_weak_ptrs g) w ≡ (not (this == w) && points (s.weak_ptrs w) g))
    × ((g : ℕ) → points (s.weak_ptrs this) g ≡ names guard g)

register-Pending :
    (s : Store) (this : ℕ) (guard : Option ℕ)
    → Pending this guard s
    → Consistent (register_valid s guard this)
register-Pending s this guard (others, mine) g w =
    rw (registered-register_valid s guard this g w, weak-register_valid s guard this)
      (ground (arith, others g w, mine g))

set_ptr-Pending :
    (s : Store) (this w : ℕ) (guard ptr : Option ℕ)
    → Pending this guard s
    → Pending this guard (set_ptr s w ptr)
unfolding set_ptr
set_ptr-Pending s this w guard ptr (others, mine) =
    ((λ g v. ground (arith, others g v, others g w)), λ g. ground (arith, mine g))

same-Pending :
    (s s' : Store) (this : ℕ) (guard : Option ℕ)
    → SameWeak s s'
    → Pending this guard s
    → Pending this guard s'
same-Pending s s' this guard same (others, mine) =
    ((λ g w. rw (same.0, same.1) (others g w)), λ g. rw same.0 (mine g))

-- The assignment of the pointer and the registration behind it.
assign_then_register :
    (owner : Bool) (s : Store) (this : ℕ) (guard old ptr : Option ℕ)
    → Pending this guard s
    → Keeps (elim (assign_ptr owner s this old ptr) as (λ _. Effect Store) [
      | done s2 ↦ done (register_valid s2 guard this)
      | invalid_ptr ↦ invalid_ptr
      | undefined ↦ undefined
    ])
unfolding assign_ptr
assign_then_register owner s this guard old ptr pending =
    let s1 = delete_ptr owner s old in
    elim (Effect-cases (copy_ptr owner s1 ptr)) [
      | inl ((s2, ptr'), copied) ↦
          rw (assign_ptr, copied)
            (register-Pending (set_ptr s2 this ptr') this guard (
              set_ptr-Pending s2 this this guard ptr' (
                same-Pending s1 s2 this guard (copy_ptr_keeps owner s1 s2 ptr ptr' copied)
                  (same-Pending s s1 this guard (delete_ptr_keeps owner s old) pending))))
      | inr (inl thrown) ↦ rw (assign_ptr, thrown) tt
      | inr (inr broken) ↦ rw (assign_ptr, broken) tt
    ]

pub same_guard_refl : (g : Option ℕ) → same_guard g g ≡ true
same_guard_refl none = refl
same_guard_refl (some g) = ground arith

module _ (s : Store) (this src : ℕ) (p from : WeakPtr) where
  unregistered-Pending :
      Consistent s
      → s.weak_ptrs this ≡ some p
      → Pending this from.guard (set_guard (unregister_valid s p.guard this) this from.guard)
  unfolding set_guard
  unregistered-Pending c there = (
    (λ g w.
        ground
          (arith, unregister-keeps s this g w p c there, weak-unregister_valid s p.guard this)),
    λ g. ground (arith, there, weak-unregister_valid s p.guard this),
  )

  pub copy_assign-Keeps :
      (owner : Bool)
      → Consistent s
      → s.weak_ptrs this ≡ some p
      → s.weak_ptrs src ≡ some from
      → Keeps (copy_assign owner s this src)
  unfolding copy_assign
  copy_assign-Keeps owner c here there = elim (Bool-cases (same_guard p.guard from.guard)) [
    | inl same ↦
        rw (copy_assign, here, there, same) (assign_ptr-Keeps owner s this p.ptr from.ptr c)
    | inr other ↦
        rw (copy_assign, here, there, other)
          (assign_then_register owner (set_guard (unregister_valid s p.guard this) this from.guard)
            this from.guard p.ptr from.ptr (unregistered-Pending c here))
  ]

  moved-Pending :
      Consistent s
      → s.weak_ptrs this ≡ some p
      → s.weak_ptrs src ≡ some from
      → (this == src) ≡ false
      → Pending this from.guard (
          set_guard
            (set_guard
              (unregister_valid (unregister_valid s p.guard this) from.guard src)
              this
              from.guard)
            src
            none)
  unfolding set_guard
  moved-Pending c here there apart =
      let s1 = unregister_valid s p.guard this in
      (
        (λ g w. ground (
          arith,
          c g w,
          c g src,
          unregister-keeps s this g w p c here,
          registered-unregister_valid s1 from.guard src g w,
          weak-unregister_valid s p.guard this,
          weak-unregister_valid s1 from.guard src,
          here,
          there,
        )),
        λ g. ground (
          arith,
          here,
          weak-unregister_valid s p.guard this,
          weak-unregister_valid s1 from.guard src,
        ),
      )

  pub move_assign-Keeps :
      Consistent s
      → s.weak_ptrs this ≡ some p
      → s.weak_ptrs src ≡ some from
      → Keeps (move_assign s this src)
  unfolding move_assign
  move_assign-Keeps c here there = elim (Bool-cases (same_guard p.guard from.guard)) [
    | inl same ↦
        let s1 = set_guard (unregister_valid s from.guard src) src none in
        let s2 = delete_ptr true s1 p.ptr in
        rw (move_assign, here, there, same)
          (set_ptr-Consistent (set_ptr s2 this from.ptr) src none (
            set_ptr-Consistent s2 this from.ptr
              (delete_ptr-Consistent true s1 p.ptr (release-Consistent s src from c there))))
    | inr other ↦
        let s1 = unregister_valid (unregister_valid s p.guard this) from.guard src in
        let s2 = set_guard (set_guard s1 this from.guard) src none in
        let s3 = delete_ptr true s2 p.ptr in
        let s4 = set_ptr s3 this from.ptr in
        rw (move_assign, here, there, other)
          (register-Pending (set_ptr s4 src none) this from.guard (
            set_ptr-Pending s4 this src from.guard none (
              set_ptr-Pending s3 this this from.guard from.ptr (
                same-Pending s2 s3 this from.guard (delete_ptr_keeps true s2 p.ptr) (
                  moved-Pending c here there
                    (ground (arith, here, there, other, same_guard_refl p.guard)))))))
  ]
