-- ===== src/Utils/Set.antt =====
-- include/libdnf/utils/set.hpp: libdnf::Set<T> over std::set<T>, the ascending list of its elements.
-- The standard algorithms that the operators call are written out here.
pub mod Members
pub mod Algebra
pub mod Merges
pub mod Inclusion
pub mod Numbers
mod Tests
use libhif.Base.{
  ℕ, Bool, true, false, not, ◌&&◌, List, [], ◌∷◌, ◌≡◌, if◌then◌else◌, length, is_empty,
}

-- `operator<` of T as a strict total order. This is more than std::set needs: a type of which two different
-- values are equivalent, or a float that is no number, is not covered.
pub record Order {ℓ} (T : Type ℓ) : Type ℓ where
  pub lt : T → T → Bool
  pub irrefl : (a : T) → lt a a ≡ false
  pub trans : (a b c : T) → lt a b ≡ true → lt b c ≡ true → lt a c ≡ true
  pub connex : (a b : T) → lt a b ≡ false → lt b a ≡ false → a ≡ b

module _ {ℓ} {T : Type ℓ} ⦃o : Order T⦄ where
  -- std::set::insert
  pub add : List T → T → List T
  add [] obj = obj ∷ []
  add (y ∷ ys) obj =
      if o.lt obj y then obj ∷ y ∷ ys else if o.lt y obj then y ∷ add ys obj else y ∷ ys

  -- std::set::erase
  pub remove : List T → T → List T
  remove [] obj = []
  remove (y ∷ ys) obj = if o.lt obj y then y ∷ ys else if o.lt y obj then y ∷ remove ys obj else ys

  -- std::set::find
  unfoldable pub contains : List T → T → Bool
  contains [] obj = false
  contains (y ∷ ys) obj = if o.lt obj y then false else if o.lt y obj then contains ys obj else true

  -- copying a range through std::inserter into an empty std::set
  pub insert_range : List T → List T → List T
  insert_range result [] = result
  insert_range result (x ∷ xs) = insert_range (add result x) xs

  -- std::set_union
  pub set_union : List T → List T → List T
  set_union [] ys = ys
  set_union (x ∷ xs) [] = x ∷ xs
  set_union (x ∷ xs) (y ∷ ys) =
      let left = x ∷ set_union xs (y ∷ ys) in
      let right = y ∷ set_union (x ∷ xs) ys in
      let both = x ∷ set_union xs ys in if o.lt y x then right else if o.lt x y then left else both

  -- std::set_intersection
  pub set_intersection : List T → List T → List T
  set_intersection [] ys = []
  set_intersection (x ∷ xs) [] = []
  set_intersection (x ∷ xs) (y ∷ ys) =
      let left = set_intersection xs (y ∷ ys) in
      let right = set_intersection (x ∷ xs) ys in
      let both = x ∷ set_intersection xs ys in
      if o.lt x y then left else if o.lt y x then right else both

  -- std::set_difference
  pub set_difference : List T → List T → List T
  set_difference [] ys = []
  set_difference (x ∷ xs) [] = x ∷ xs
  set_difference (x ∷ xs) (y ∷ ys) =
      let left = x ∷ set_difference xs (y ∷ ys) in
      let right = set_difference (x ∷ xs) ys in
      let both = set_difference xs ys in if o.lt x y then left else if o.lt y x then right else both

  -- std::set_symmetric_difference
  pub set_symmetric_difference : List T → List T → List T
  set_symmetric_difference [] ys = ys
  set_symmetric_difference (x ∷ xs) [] = x ∷ xs
  set_symmetric_difference (x ∷ xs) (y ∷ ys) =
      let left = x ∷ set_symmetric_difference xs (y ∷ ys) in
      let right = y ∷ set_symmetric_difference (x ∷ xs) ys in
      let both = set_symmetric_difference xs ys in
      if o.lt x y then left else if o.lt y x then right else both

  -- std::includes: does the first range hold the second?
  pub includes : List T → List T → Bool
  includes xs [] = true
  includes [] (y ∷ ys) = false
  includes (x ∷ xs) (y ∷ ys) =
      let later = includes xs (y ∷ ys) in
      let both = includes xs ys in if o.lt y x then false else if o.lt x y then later else both

  -- operator|=, operator&=, operator-=, operator^=
  pub union_with : List T → List T → List T
  union_with s other = insert_range [] (set_union s other)

  pub intersect_with : List T → List T → List T
  intersect_with s other = insert_range [] (set_intersection s other)

  pub subtract : List T → List T → List T
  subtract s other = insert_range [] (set_difference s other)

  pub symmetric_difference : List T → List T → List T
  symmetric_difference s other = insert_range [] (set_symmetric_difference s other)

  pub is_subset : List T → List T → Bool
  is_subset s other = includes other s

  pub is_superset : List T → List T → Bool
  is_superset s other = includes s other
