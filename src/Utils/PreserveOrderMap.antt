-- ===== src/Utils/PreserveOrderMap.antt =====
-- include/libdnf/utils/preserve_order_map.hpp: PreserveOrderMap, a vector of pairs with unique keys.
-- An iterator is a position, and end() is `none`.
pub mod Laws
mod Tests
use libhif.Base.{
  ℕ, zero, suc, ◌+◌, Bool, true, false, Option, none, some, List, [], ◌∷◌, ◌++◌, if◌then◌else◌,
  length,
}
use libhif.Base.Eq.{Eq}

module _ {ℓ κ} {K : Type ℓ} {T : Type κ} ⦃e : Eq K⦄ where
  -- the loop of `find`, from a position
  unfoldable pub find_position : ℕ → List (K × T) → K → Option ℕ
  find_position it [] key = none
  find_position it (item ∷ items) key =
      if e.beq item.0 key then some it else find_position (it + 1) items key

  unfoldable pub find : List (K × T) → K → Option ℕ
  find items key = find_position 0 items key

  -- std::vector::erase of one position
  unfoldable pub erase_position : List (K × T) → ℕ → List (K × T)
  erase_position [] it = []
  erase_position (item ∷ items) zero = items
  erase_position (item ∷ items) (suc it) = item ∷ erase_position items it

  unfoldable pub insert : List (K × T) → K × T → List (K × T) × Bool
  insert items value = elim (find items value.0) [
    | none ↦ (items ++ (value ∷ []), true)
    | some it ↦ (items, false)
  ]

  unfoldable pub erase : List (K × T) → K → List (K × T) × ℕ
  erase items key = elim (find items key) [
    | none ↦ (items, 0)
    | some it ↦ (erase_position items it, 1)
  ]

  unfoldable pub count : List (K × T) → K → ℕ
  count items key = elim (find items key) [ none ↦ 0 | some it ↦ 1 ]

  -- `none` is std::out_of_range
  unfoldable pub at : List (K × T) → K → Option T
  at [] key = none
  at (item ∷ items) key = if e.beq item.0 key then some item.1 else at items key

  -- `map[key] = value`
  unfoldable pub assign : List (K × T) → K → T → List (K × T)
  assign [] key value = (key, value) ∷ []
  assign (item ∷ items) key value =
      if e.beq item.0 key then (item.0, value) ∷ items else item ∷ assign items key value
