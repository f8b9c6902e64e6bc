-- ===== src/Utils/Set/Tests.antt =====
-- Sets of numbers.
use libhif.Base.{ℕ, true, not, ◌&&◌, ◌||◌, List, [], ◌∷◌, ◌≡◌, ◌↔◌, refl}
use libhif.Utils.Set.{
  add, remove, contains, insert_range, set_union, set_intersection, set_difference,
  set_symmetric_difference, includes, union_with, intersect_with, subtract, symmetric_difference,
  is_subset, is_superset,
}
use libhif.Utils.Set.Members.{IsAscending}
use libhif.Utils.Set.Numbers.{nat_order}
use libhif.Utils.Set.Algebra
use libhif.Utils.Set.Inclusion

program : Unit {0}
unfolding add remove contains insert_range set_union set_intersection set_difference
    set_symmetric_difference includes union_with intersect_with subtract symmetric_difference
    is_subset is_superset
program = tt

abbrev odd : List ℕ
odd = 1 ∷ 3 ∷ 5 ∷ []

abbrev low : List ℕ
low = 1 ∷ 2 ∷ 3 ∷ []

odd-IsAscending : IsAscending odd
odd-IsAscending = ((refl, (refl, tt)), ((refl, tt), (tt, tt)))

low-IsAscending : IsAscending low
low-IsAscending = ((refl, (refl, tt)), ((refl, tt), (tt, tt)))

operators :
    (union_with odd low ≡ 1 ∷ 2 ∷ 3 ∷ 5 ∷ [])
    × (intersect_with odd low ≡ 1 ∷ 3 ∷ [])
    × (subtract odd low ≡ 5 ∷ [])
    × (symmetric_difference odd low ≡ 2 ∷ 5 ∷ [])
    × (add (remove odd 3) 4 ≡ 1 ∷ 4 ∷ 5 ∷ [])
unfolding program
operators = (refl, refl, refl, refl, refl)

union_with_members_example :
    IsAscending (union_with odd low)
    × ((z : ℕ) → contains (union_with odd low) z ≡ (contains odd z || contains low z))
union_with_members_example = Algebra.union_with_members odd low odd-IsAscending low-IsAscending

intersect_with_members_example :
    IsAscending (intersect_with odd low)
    × ((z : ℕ) → contains (intersect_with odd low) z ≡ (contains odd z && contains low z))
intersect_with_members_example =
    Algebra.intersect_with_members odd low odd-IsAscending low-IsAscending

subtract_members_example :
    IsAscending (subtract odd low)
    × ((z : ℕ) → contains (subtract odd low) z ≡ (contains odd z && not (contains low z)))
subtract_members_example = Algebra.subtract_members odd low odd-IsAscending low-IsAscending

is_subset_iff_example :
    ((is_subset odd low ≡ true) ↔ ((z : ℕ) → contains odd z ≡ true → contains low z ≡ true))
    × (is_superset low odd ≡ is_subset odd low)
is_subset_iff_example = Inclusion.is_subset_iff odd low odd-IsAscending low-IsAscending
