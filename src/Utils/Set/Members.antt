-- ===== src/Utils/Set/Members.antt =====
-- The members of a set after each operation, as `contains` reads them.
use libhif.Base.{Bool, true, false, not, ◌&&◌, ◌||◌, List, [], ◌∷◌, ◌≡◌, refl, arith, All}
use libhif.Utils.Set.{
  Order, add, remove, contains, set_union, set_intersection, set_difference,
  set_symmetric_difference,
}

module _ {ℓ} {T : Type ℓ} ⦃o : Order T⦄ where
  -- neither is below the other
  abbrev pub same : T → T → Bool
  same a b = not (o.lt a b) && not (o.lt b a)

  -- Every element of the list is above `x`.
  abbrev pub Above : T → List T → Type 0
  Above x = All (λ y. o.lt x y ≡ true)

  -- What std::set keeps: strictly ascending elements.
  abbrev pub IsAscending : List T → Type 0
  IsAscending [] = Unit
  IsAscending (x ∷ xs) = Above x xs × IsAscending xs

  pub Above-trans : (x y : T) (l : List T) → o.lt x y ≡ true → Above y l → Above x l
  Above-trans x y [] h a = tt
  Above-trans x y (z ∷ l) h a = (o.trans x y z h a.0, Above-trans x y l h a.1)

  pub contains-Above : (z : T) (l : List T) → Above z l → contains l z ≡ false
  unfolding contains
  contains-Above z [] a = refl
  contains-Above z (y ∷ l) a = ground arith

  pub asym : (a b : T) → o.lt a b ≡ true → o.lt b a ≡ false
  asym a b h = ground (arith, o.trans a b a h, o.irrefl a)

  Above-add : (w obj : T) (s : List T) → Above w s → o.lt w obj ≡ true → Above w (add s obj)
  unfolding add
  Above-add w obj [] a h = (h, tt)
  Above-add w obj (y ∷ ys) a h = ground (arith, Above-add w obj ys a.1 h)

  -- Inserting keeps the elements ascending.
  pub add-IsAscending : (s : List T) (obj : T) → IsAscending s → IsAscending (add s obj)
  unfolding add
  add-IsAscending [] obj a = (tt, tt)
  add-IsAscending (y ∷ ys) obj a =
      ground (arith, Above-trans obj y ys, Above-add y obj ys a.0, add-IsAscending ys obj a.1)

  pub contains-add :
      (s : List T) (obj z : T) → contains (add s obj) z ≡ (same z obj || contains s z)
  unfolding contains add
  contains-add [] obj z = ground arith
  contains-add (y ∷ ys) obj z = ground (
    arith,
    o.trans z obj y,
    o.trans z y obj,
    o.trans obj y z,
    o.connex y obj,
    o.connex y z,
    asym z obj,
    contains-add ys obj z,
  )

  Above-remove : (w obj : T) (s : List T) → Above w s → Above w (remove s obj)
  unfolding remove
  Above-remove w obj [] a = tt
  Above-remove w obj (y ∷ ys) a = ground (arith, Above-remove w obj ys a.1)

  pub remove-IsAscending : (s : List T) (obj : T) → IsAscending s → IsAscending (remove s obj)
  unfolding remove
  remove-IsAscending [] obj a = tt
  remove-IsAscending (y ∷ ys) obj a =
      ground (arith, Above-remove y obj ys a.0, remove-IsAscending ys obj a.1)

  -- A value at or below the head of an ascending list is not in its tail.
  pub contains_below :
      (y z : T) (ys : List T) → Above y ys → o.lt y z ≡ false → contains ys z ≡ false
  contains_below y z ys a h =
      ground (arith, o.connex y z h, contains-Above y ys a, contains-Above z ys, Above-trans z y ys)

  pub contains-remove :
      (s : List T) (obj z : T)
      → IsAscending s
      → contains (remove s obj) z ≡ (not (same z obj) && contains s z)
  unfolding contains remove
  contains-remove [] obj z a = ground arith
  contains-remove (y ∷ ys) obj z a = ground (
    arith,
    o.trans z obj y,
    o.connex y obj,
    o.connex z obj,
    asym z obj,
    contains_below y z ys a.0,
    contains-remove ys obj z a.1,
  )

  -- The merges of the standard library. Only the difference that drops an element of both reads
  -- the order of what follows.
  pub contains-set_union :
      (a b : List T) (z : T) → contains (set_union a b) z ≡ (contains a z || contains b z)
  unfolding contains set_union
  contains-set_union [] b z = refl
  contains-set_union (x ∷ xs) [] z = ground arith
  contains-set_union (x ∷ xs) (y ∷ ys) z = ground (
    arith,
    o.trans z x y,
    o.trans z y x,
    o.connex x y,
    contains-set_union xs (y ∷ ys) z,
    contains-set_union (x ∷ xs) ys z,
    contains-set_union xs ys z,
  )

  pub contains-set_intersection :
      (a b : List T) (z : T) → contains (set_intersection a b) z ≡ (contains a z && contains b z)
  unfolding contains set_intersection
  contains-set_intersection [] b z = refl
  contains-set_intersection (x ∷ xs) [] z = ground arith
  contains-set_intersection (x ∷ xs) (y ∷ ys) z = ground (
    arith,
    o.trans z x y,
    o.trans z y x,
    o.connex x y,
    o.connex x z,
    o.connex y z,
    contains-set_intersection xs (y ∷ ys) z,
    contains-set_intersection (x ∷ xs) ys z,
    contains-set_intersection xs ys z,
  )

  pub contains-set_difference :
      (a b : List T) (z : T)
      → IsAscending a
      → IsAscending b
      → contains (set_difference a b) z ≡ (contains a z && not (contains b z))
  unfolding contains set_difference
  contains-set_difference [] b z p q = refl
  contains-set_difference (x ∷ xs) [] z p q = ground arith
  contains-set_difference (x ∷ xs) (y ∷ ys) z p q = ground (
    arith,
    o.trans z x y,
    o.trans z y x,
    o.connex x y,
    o.connex x z,
    o.connex y z,
    asym x z,
    asym y z,
    contains_below x z xs p.0,
    contains_below y z ys q.0,
    contains-set_difference xs (y ∷ ys) z p.1 q,
    contains-set_difference (x ∷ xs) ys z p q.1,
    contains-set_difference xs ys z p.1 q.1,
  )

  pub contains-set_symmetric_difference :
      (a b : List T) (z : T)
      → IsAscending a
      → IsAscending b
      → contains (set_symmetric_difference a b) z
        ≡ ((contains a z && not (contains b z)) || (contains b z && not (contains a z)))
  unfolding contains set_symmetric_difference
  contains-set_symmetric_difference [] b z p q = ground arith
  contains-set_symmetric_difference (x ∷ xs) [] z p q = ground arith
  contains-set_symmetric_difference (x ∷ xs) (y ∷ ys) z p q = ground (
    arith,
    o.trans z x y,
    o.trans z y x,
    o.connex x y,
    o.connex x z,
    o.connex y z,
    asym x z,
    asym y z,
    contains_below x z xs p.0,
    contains_below y z ys q.0,
    contains-set_symmetric_difference xs (y ∷ ys) z p.1 q,
    contains-set_symmetric_difference (x ∷ xs) ys z p q.1,
    contains-set_symmetric_difference xs ys z p.1 q.1,
  )
