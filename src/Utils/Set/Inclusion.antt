-- ===== src/Utils/Set/Inclusion.antt =====
-- std::includes on ascending lists decides inclusion.
use libhif.Base.{true, false, List, [], ◌∷◌, ◌≡◌, ◌↔◌, refl, arith, inl, inr, Bool-cases}
use libhif.Utils.Set.{Order, contains, includes, is_subset, is_superset}
use libhif.Utils.Set.Members.{IsAscending, asym, contains_below}

module _ {ℓ} {T : Type ℓ} ⦃o : Order T⦄ where
  includes_sound :
      (a b : List T) (z : T)
      → IsAscending a
      → includes a b ≡ true
      → contains b z ≡ true
      → contains a z ≡ true
  unfolding includes contains
  includes_sound a [] z p h k = cc
  includes_sound [] (y ∷ ys) z p h k = cc
  includes_sound (x ∷ xs) (y ∷ ys) z p h k = ground (
    arith,
    o.trans x y z,
    o.connex x y,
    o.connex x z,
    o.connex y z,
    asym x z,
    includes_sound xs (y ∷ ys) z p.1,
    includes_sound xs ys z p.1,
  )

  -- What follows the smaller head in one range has the members of the other.
  drop_left :
      (x y z : T) (xs ys : List T)
      → o.lt x y ≡ true
      → (contains (y ∷ ys) z ≡ true → contains (x ∷ xs) z ≡ true)
      → contains (y ∷ ys) z ≡ true
      → contains xs z ≡ true
  unfolding contains
  drop_left x y z xs ys l h k =
      ground (arith, o.connex x z, asym x y, o.trans x y z, asym x z, o.connex y z)

  drop_both :
      (x z : T) (xs ys : List T)
      → IsAscending (x ∷ ys)
      → (contains (x ∷ ys) z ≡ true → contains (x ∷ xs) z ≡ true)
      → contains ys z ≡ true
      → contains xs z ≡ true
  unfolding contains
  drop_both x z xs ys q h k = ground (arith, contains_below x z ys q.0, asym x z)

  not_below :
      (x y : T) (xs ys : List T)
      → (contains (y ∷ ys) y ≡ true → contains (x ∷ xs) y ≡ true)
      → o.lt y x ≡ false
  unfolding contains
  not_below x y xs ys h = ground (arith, o.irrefl y)

  includes_complete :
      (a b : List T)
      → IsAscending b
      → ((z : T) → contains b z ≡ true → contains a z ≡ true)
      → includes a b ≡ true
  unfolding includes
  includes_complete a [] q h = ground arith
  includes_complete [] (y ∷ ys) q h = unfold contains in ground (arith, h y, o.irrefl y)
  includes_complete (x ∷ xs) (y ∷ ys) q h =
      let low = not_below x y xs ys (h y) in
      elim (Bool-cases (o.lt x y)) [
        | inl less ↦
            rw (low, less) (includes_complete xs (y ∷ ys) q (λ z. drop_left x y z xs ys less (h z)))
        | inr more ↦
            let e = o.connex x y more low in
            rw (low, more)
              (includes_complete xs ys q.1 (λ z. drop_both y z xs ys q (rw e at (h z))))
      ]

  -- On ascending lists `is_subset` holds exactly when every element of the one is in the other,
  -- and `is_superset` is the same question asked from the other side.
  pub is_subset_iff :
      (a b : List T)
      → IsAscending a
      → IsAscending b
      → ((is_subset a b ≡ true) ↔ ((z : T) → contains a z ≡ true → contains b z ≡ true))
        × (is_superset b a ≡ is_subset a b)
  unfolding is_subset is_superset
  is_subset_iff a b p q = ((λ h z. includes_sound b a z q h, includes_complete b a p), refl)
