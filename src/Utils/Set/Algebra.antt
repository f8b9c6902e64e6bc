-- ===== src/Utils/Set/Algebra.antt =====
-- libdnf::Set against the algebra of subsets: what each operator does to every member.
use libhif.Base.{false, not, ◌&&◌, ◌||◌, List, [], ◌∷◌, ◌≡◌, refl, sym, arith}
use libhif.Utils.Set.{
  Order, contains, set_union, set_intersection, set_difference, set_symmetric_difference,
  union_with, intersect_with, subtract, symmetric_difference,
}
use libhif.Utils.Set.Members.{
  Above, IsAscending, asym, contains_below, contains-set_union, contains-set_intersection,
  contains-set_difference, contains-set_symmetric_difference,
}
use libhif.Utils.Set.Merges.{
  insert_range-nil, set_union-IsAscending, set_intersection-IsAscending, set_difference-IsAscending,
  set_symmetric_difference-IsAscending,
}

module _ {ℓ} {T : Type ℓ} ⦃o : Order T⦄ where
  -- Two ascending lists with the same members are one list.
  head_not_above :
      (x y : T) (xs ys : List T)
      → ((z : T) → contains (x ∷ xs) z ≡ contains (y ∷ ys) z)
      → o.lt x y ≡ false
  unfolding contains
  head_not_above x y xs ys h = ground (arith, h x, o.irrefl x)

  tails_equal :
      (x : T) (xs ys : List T)
      → Above x xs
      → Above x ys
      → ((z : T) → contains (x ∷ xs) z ≡ contains (x ∷ ys) z)
      → (z : T) → contains xs z ≡ contains ys z
  unfolding contains
  tails_equal x xs ys p q h z =
      ground (arith, h z, asym x z, contains_below x z xs p, contains_below x z ys q)

  -- Sets that hold the same elements are equal, whatever calls built them.
  pub contains_ext :
      (a b : List T)
      → IsAscending a
      → IsAscending b
      → ((z : T) → contains a z ≡ contains b z)
      → a ≡ b
  contains_ext [] [] p q h = refl
  contains_ext [] (y ∷ ys) p q h = unfold contains in ground (arith, h y, o.irrefl y)
  contains_ext (x ∷ xs) [] p q h = unfold contains in ground (arith, h x, o.irrefl x)
  contains_ext (x ∷ xs) (y ∷ ys) p q h =
      let e : x ≡ y =
        o.connex x y (head_not_above x y xs ys h) (head_not_above y x ys xs (λ z. sym (h z))) in
      cc (e, contains_ext xs ys p.1 q.1 (tails_equal y xs ys (rw e at p.0) q.0 (rw e at h)))

  module _ (a b : List T) (p : IsAscending a) (q : IsAscending b) where
    union_with_eq : union_with a b ≡ set_union a b
    unfolding union_with
    union_with_eq = insert_range-nil _ (set_union-IsAscending a b p q)

    -- `a |= b` stays ascending and holds exactly what `a` or `b` holds.
    pub union_with_members :
        IsAscending (union_with a b)
        × ((z : T) → contains (union_with a b) z ≡ (contains a z || contains b z))
    union_with_members = rw union_with_eq (set_union-IsAscending a b p q, contains-set_union a b)

    intersect_with_eq : intersect_with a b ≡ set_intersection a b
    unfolding intersect_with
    intersect_with_eq = insert_range-nil _ (set_intersection-IsAscending a b p)

    -- `a &= b` stays ascending and holds exactly what both hold.
    pub intersect_with_members :
        IsAscending (intersect_with a b)
        × ((z : T) → contains (intersect_with a b) z ≡ (contains a z && contains b z))
    intersect_with_members =
        rw intersect_with_eq (set_intersection-IsAscending a b p, contains-set_intersection a b)

    subtract_eq : subtract a b ≡ set_difference a b
    unfolding subtract
    subtract_eq = insert_range-nil _ (set_difference-IsAscending a b p)

    -- `a -= b` stays ascending and holds exactly what `a` holds and `b` does not.
    pub subtract_members :
        IsAscending (subtract a b)
        × ((z : T) → contains (subtract a b) z ≡ (contains a z && not (contains b z)))
    subtract_members =
        rw subtract_eq (set_difference-IsAscending a b p, λ z. contains-set_difference a b z p q)

    symmetric_difference_eq : symmetric_difference a b ≡ set_symmetric_difference a b
    unfolding symmetric_difference
    symmetric_difference_eq = insert_range-nil _ (set_symmetric_difference-IsAscending a b p q)

    -- `a ^= b` stays ascending and holds exactly what one of the two holds.
    pub symmetric_difference_members :
        IsAscending (symmetric_difference a b)
        × ((z : T)
            → contains (symmetric_difference a b) z
              ≡ ((contains a z && not (contains b z)) || (contains b z && not (contains a z))))
    symmetric_difference_members = rw symmetric_difference_eq (
      set_symmetric_difference-IsAscending a b p q,
      λ z. contains-set_symmetric_difference a b z p q,
    )

  -- The symmetric difference is the union of the two differences.
  pub symmetric_difference-eq-union_with :
      (a b : List T)
      → IsAscending a
      → IsAscending b
      → symmetric_difference a b ≡ union_with (subtract a b) (subtract b a)
  symmetric_difference-eq-union_with a b p q =
      let (pd, hd) = subtract_members a b p q in
      let (pe, he) = subtract_members b a q p in
      let (pu, hu) = union_with_members _ _ pd pe in
      let (ps, hs) = symmetric_difference_members a b p q in
      contains_ext _ _ ps pu (λ z. cc (hs z, hu z, hd z, he z))
