-- ===== src/Utils/Set/Merges.antt =====
-- The merges give ascending lists, which std::inserter copies unchanged.
use libhif.Base.{◌≡◌, true, List, [], ◌∷◌, ◌++◌, refl, arith, append_assoc, append-nil, ◌∙◌}
use libhif.Utils.Set.{
  Order, add, insert_range, set_union, set_intersection, set_difference, set_symmetric_difference,
}
use libhif.Utils.Set.Members.{Above, IsAscending, Above-trans, asym}

module _ {ℓ} {T : Type ℓ} ⦃o : Order T⦄ where
  module _ (w : T) where
    Above-set_union : (a b : List T) → Above w a → Above w b → Above w (set_union a b)
    unfolding set_union
    Above-set_union [] b p q = q
    Above-set_union (x ∷ xs) [] p q = p
    Above-set_union (x ∷ xs) (y ∷ ys) p q = ground (
      arith,
      Above-set_union xs (y ∷ ys) p.1 q,
      Above-set_union (x ∷ xs) ys p q.1,
      Above-set_union xs ys p.1 q.1,
    )

    Above-set_intersection : (a b : List T) → Above w a → Above w (set_intersection a b)
    unfolding set_intersection
    Above-set_intersection [] b p = tt
    Above-set_intersection (x ∷ xs) [] p = tt
    Above-set_intersection (x ∷ xs) (y ∷ ys) p = ground (
      arith,
      Above-set_intersection xs (y ∷ ys) p.1,
      Above-set_intersection (x ∷ xs) ys p,
      Above-set_intersection xs ys p.1,
    )

    Above-set_difference : (a b : List T) → Above w a → Above w (set_difference a b)
    unfolding set_difference
    Above-set_difference [] b p = tt
    Above-set_difference (x ∷ xs) [] p = p
    Above-set_difference (x ∷ xs) (y ∷ ys) p = ground (
      arith,
      Above-set_difference xs (y ∷ ys) p.1,
      Above-set_difference (x ∷ xs) ys p,
      Above-set_difference xs ys p.1,
    )

    Above-set_symmetric_difference :
        (a b : List T) → Above w a → Above w b → Above w (set_symmetric_difference a b)
    unfolding set_symmetric_difference
    Above-set_symmetric_difference [] b p q = q
    Above-set_symmetric_difference (x ∷ xs) [] p q = p
    Above-set_symmetric_difference (x ∷ xs) (y ∷ ys) p q = ground (
      arith,
      Above-set_symmetric_difference xs (y ∷ ys) p.1 q,
      Above-set_symmetric_difference (x ∷ xs) ys p q.1,
      Above-set_symmetric_difference xs ys p.1 q.1,
    )

  pub set_union-IsAscending :
      (a b : List T) → IsAscending a → IsAscending b → IsAscending (set_union a b)
  unfolding set_union
  set_union-IsAscending [] b p q = q
  set_union-IsAscending (x ∷ xs) [] p q = p
  set_union-IsAscending (x ∷ xs) (y ∷ ys) p q = ground (
    arith,
    o.connex x y,
    Above-trans x y ys,
    Above-trans y x xs,
    Above-set_union x xs (y ∷ ys) p.0,
    Above-set_union y (x ∷ xs) ys,
    Above-set_union x xs ys p.0,
    set_union-IsAscending xs (y ∷ ys) p.1 q,
    set_union-IsAscending (x ∷ xs) ys p q.1,
    set_union-IsAscending xs ys p.1 q.1,
  )

  pub set_intersection-IsAscending :
      (a b : List T) → IsAscending a → IsAscending (set_intersection a b)
  unfolding set_intersection
  set_intersection-IsAscending [] b p = tt
  set_intersection-IsAscending (x ∷ xs) [] p = tt
  set_intersection-IsAscending (x ∷ xs) (y ∷ ys) p = ground (
    arith,
    Above-set_intersection x xs ys p.0,
    set_intersection-IsAscending xs (y ∷ ys) p.1,
    set_intersection-IsAscending (x ∷ xs) ys p,
    set_intersection-IsAscending xs ys p.1,
  )

  pub set_difference-IsAscending : (a b : List T) → IsAscending a → IsAscending (set_difference a b)
  unfolding set_difference
  set_difference-IsAscending [] b p = tt
  set_difference-IsAscending (x ∷ xs) [] p = p
  set_difference-IsAscending (x ∷ xs) (y ∷ ys) p = ground (
    arith,
    Above-set_difference x xs (y ∷ ys) p.0,
    set_difference-IsAscending xs (y ∷ ys) p.1,
    set_difference-IsAscending (x ∷ xs) ys p,
    set_difference-IsAscending xs ys p.1,
  )

  pub set_symmetric_difference-IsAscending :
      (a b : List T) → IsAscending a → IsAscending b → IsAscending (set_symmetric_difference a b)
  unfolding set_symmetric_difference
  set_symmetric_difference-IsAscending [] b p q = q
  set_symmetric_difference-IsAscending (x ∷ xs) [] p q = p
  set_symmetric_difference-IsAscending (x ∷ xs) (y ∷ ys) p q = ground (
    arith,
    Above-trans x y ys,
    Above-trans y x xs,
    Above-set_symmetric_difference x xs (y ∷ ys) p.0,
    Above-set_symmetric_difference y (x ∷ xs) ys,
    set_symmetric_difference-IsAscending xs (y ∷ ys) p.1 q,
    set_symmetric_difference-IsAscending (x ∷ xs) ys p q.1,
    set_symmetric_difference-IsAscending xs ys p.1 q.1,
  )

  -- An element above a whole ascending list goes to its end.
  Above-append : (y x : T) (r xs : List T) → Above y (r ++ (x ∷ xs)) → o.lt y x ≡ true
  Above-append y x [] xs a = a.0
  Above-append y x (z ∷ r) xs a = Above-append y x r xs a.1

  add_last :
      (r : List T) (x : T) (xs : List T) → IsAscending (r ++ (x ∷ xs)) → add r x ≡ r ++ (x ∷ [])
  unfolding add
  add_last [] x xs a = refl
  add_last (y ∷ r) x xs a = ground (arith, Above-append y x r xs a.0, asym y x, add_last r x xs a.1)

  insert_range_ascending : (r l : List T) → IsAscending (r ++ l) → insert_range r l ≡ r ++ l
  unfolding insert_range
  insert_range_ascending r [] a = rw append-nil
  insert_range_ascending r (x ∷ xs) a =
      rw (add_last r x xs a)
        (insert_range_ascending (r ++ (x ∷ [])) xs (rw append_assoc a) ∙ append_assoc r (x ∷ []) xs)

  pub insert_range-nil : (l : List T) → IsAscending l → insert_range [] l ≡ l
  insert_range-nil l a = insert_range_ascending [] l a
