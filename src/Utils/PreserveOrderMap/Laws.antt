-- ===== src/Utils/PreserveOrderMap/Laws.antt =====
-- The map's keys stay unique and in order, and each operation changes one key only.
use libhif.Base.{
  ℕ, suc, ◌+◌, Bool, true, false, ◌||◌, none, some, List, [], ◌∷◌, ◌++◌, ◌≡◌, refl, ap, arith,
  if◌then◌else◌, Bool-cases, Option-cases, inl, inr,
}
use libhif.Base.Eq.{Eq}
use libhif.Utils.PreserveOrderMap.{find_position, find, erase_position, erase, at, assign}

module _ {ℓ} {K : Type ℓ} ⦃e : Eq K⦄ where
  -- Is the key in the list?
  abbrev pub holds : List K → K → Bool
  holds [] key = false
  holds (k ∷ ks) key = e.beq k key || holds ks key

  abbrev pub IsUnique : List K → Type 0
  IsUnique [] = Unit
  IsUnique (k ∷ ks) = (holds ks k ≡ false) × IsUnique ks

  beq_refl : (k : K) → e.beq k k ≡ true
  beq_refl k = (e.beq_iff k k).1 refl

  holds-append :
      (ks : List K) (k key : K) → holds (ks ++ (k ∷ [])) key ≡ (holds ks key || e.beq k key)
  holds-append [] k key = ground arith
  holds-append (j ∷ ks) k key = ground (arith, holds-append ks k key)

  append-IsUnique :
      (ks : List K) (key : K) → IsUnique ks → holds ks key ≡ false → IsUnique (ks ++ (key ∷ []))
  append-IsUnique [] key u h = (refl, tt)
  append-IsUnique (k ∷ ks) key u h =
      ground
        (arith, holds-append ks key k, e.beq_iff key k, e.beq_iff k key, append-IsUnique ks key u.1)

module _ {ℓ κ} {K : Type ℓ} {T : Type κ} ⦃e : Eq K⦄ where
  abbrev pub keys : List (K × T) → List K
  keys [] = []
  keys (item ∷ items) = item.0 ∷ keys items

  -- Reading back after an assignment: the new value under the key, and every other as before.
  pub at-assign :
      (items : List (K × T)) (key other : K) (value : T)
      → at (assign items key value) other ≡ (if e.beq key other then some value else at items other)
  unfolding at assign
  at-assign [] key other value = refl
  at-assign (item ∷ items) key other value = ground (
    arith,
    e.beq_iff item.0 key,
    e.beq_iff item.0 other,
    e.beq_iff key other,
    at-assign items key other value,
  )

  -- An assignment keeps the order of the keys; a new key goes to the end.
  pub keys-assign :
      (items : List (K × T)) (key : K) (value : T)
      → keys (assign items key value)
        ≡ (if holds (keys items) key then keys items else keys items ++ (key ∷ []))
  unfolding assign
  keys-assign [] key value = refl
  keys-assign (item ∷ items) key value = ground (arith, keys-assign items key value)

  pub assign-IsUnique :
      (items : List (K × T)) (key : K) (value : T)
      → IsUnique (keys items)
      → IsUnique (keys (assign items key value))
  assign-IsUnique items key value u =
      rw (keys-assign items key value) (ground (arith, append-IsUnique (keys items) key u))

  -- What `erase` does, without the position.
  abbrev without : List (K × T) → K → List (K × T)
  without [] key = []
  without (item ∷ items) key = if e.beq item.0 key then items else item ∷ without items key

  pub find-none :
      (it : ℕ) (items : List (K × T)) (key : K)
      → find_position it items key ≡ none
      → (without items key ≡ items) × (holds (keys items) key ≡ false)
  unfolding find_position
  find-none it [] key h = (refl, refl)
  find-none it (item ∷ items) key h = ground (arith, find-none (it + 1) items key)

  find-some :
      (it : ℕ) (items : List (K × T)) (key : K) (j : ℕ)
      → find_position it items key ≡ some j
      → (n : ℕ) × (j ≡ it + n)
        × (erase_position items n ≡ without items key)
        × (holds (keys items) key ≡ true)
  unfolding find_position erase_position
  find-some it [] key j h = absurd cc
  find-some it (item ∷ items) key j h = elim (Bool-cases (e.beq item.0 key)) [
    | inl here ↦ (0, ground arith, rw here, rw here)
    | inr on ↦
        let (n, j_is, erased, held) = find-some (it + 1) items key j (rw on at h) in
        (suc n, omega (arith, j_is), rw on (ap (◌∷◌ item) erased), rw (on, held))
  ]

  erase_lem :
      (items : List (K × T)) (key : K)
      → erase items key ≡ (without items key, if holds (keys items) key then 1 else 0)
  unfolding erase find
  erase_lem items key = elim (Option-cases (find_position 0 items key)) [
    | inl missing ↦
        let (same, free) = find-none 0 items key missing in rw (missing, erase, find, same, free)
    | inr (j, found) ↦
        let (n, j_is, erased, held) = find-some 0 items key j found in
        let at_n : j ≡ n = omega (arith, j_is) in rw (found, erase, find, held, at_n, erased)
  ]

  at_free : (items : List (K × T)) (key : K) → holds (keys items) key ≡ false → at items key ≡ none
  unfolding at
  at_free [] key h = refl
  at_free (item ∷ items) key h = ground (arith, at_free items key)

  at-without :
      (items : List (K × T)) (key other : K)
      → IsUnique (keys items)
      → at (without items key) other ≡ (if e.beq key other then none else at items other)
  unfolding at
  at-without [] key other u = ground arith
  at-without (item ∷ items) key other u = ground (
    arith,
    e.beq_iff item.0 key,
    e.beq_iff item.0 other,
    e.beq_iff key other,
    at_free items key,
    at_free items item.0,
    at-without items key other u.1,
  )

  holds-without :
      (items : List (K × T)) (key other : K)
      → holds (keys items) other ≡ false
      → holds (keys (without items key)) other ≡ false
  holds-without [] key other h = refl
  holds-without (item ∷ items) key other h = ground (arith, holds-without items key other)

  without-IsUnique :
      (items : List (K × T)) (key : K) → IsUnique (keys items) → IsUnique (keys (without items key))
  without-IsUnique [] key u = tt
  without-IsUnique (item ∷ items) key u =
      ground (arith, holds-without items key item.0, without-IsUnique items key u.1)

  -- On a map with unique keys `erase` keeps them unique, counts what it removes, and afterwards
  -- the key is gone and every other key reads as before.
  pub erase_reads :
      (items : List (K × T)) (key : K)
      → IsUnique (keys items)
      → IsUnique (keys (erase items key).0)
        × ((erase items key).1 ≡ (if holds (keys items) key then 1 else 0))
        × ((other : K)
            → at (erase items key).0 other ≡ (if e.beq key other then none else at items other))
  erase_reads items key u =
      rw (erase_lem items key)
        (without-IsUnique items key u, refl, λ other. at-without items key other u)

  pub holds-at :
      (items : List (K × T)) (key : K)
      → holds (keys items) key
        ≡ (elim (at items key) as (λ _. Bool) [ none ↦ false | some v ↦ true ])
  unfolding at
  holds-at [] key = refl
  holds-at (item ∷ items) key = ground (arith, holds-at items key)

  pub assign_new :
      (items : List (K × T)) (key : K) (value : T)
      → holds (keys items) key ≡ false
      → assign items key value ≡ items ++ ((key, value) ∷ [])
  unfolding assign
  assign_new [] key value h = refl
  assign_new (item ∷ items) key value h = ground (arith, assign_new items key value)
