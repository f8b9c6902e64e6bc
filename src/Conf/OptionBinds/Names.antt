-- ===== src/Conf/OptionBinds/Names.antt =====
-- What a name is bound to.
use libhif.Base.{
  List, [], false, ◌∷◌, none, some, ap, ◌∙◌, Bytes, ◌≡◌, refl, arith, if◌then◌else◌, Bool-cases,
  sym, ◌↔◌, ◌⊎◌, bytes_eq, bytes_eq_iff, Option-cases, inl, inr,
}
use libhif.Base.Eq.{bytes_equality}
use libhif.Utils.PreserveOrderMap as Map
use libhif.Utils.PreserveOrderMap.Laws.{at-assign}
use libhif.Conf.OptionBinds.{
  Item, Result, option_not_found, option_already_exists, ok, err, find_item, at, add,
}

-- A successful add binds the name to its item and leaves every other name as it was.
pub at-add :
    {S : Type 0} (items items' : List (Bytes × Item S)) (id other : Bytes) (item : Item S)
    → add items id item ≡ ok items'
    → at items' other ≡ (if bytes_eq id other then ok item else at items other)
unfolding at add find_item
at-add items items' id other item h = elim (Option-cases (Map.at items id)) [
  | inr (old, bound) ↦ absurd (ground (arith, h, bound))
  | inl free ↦
      let same : Map.assign items id item ≡ items' = ground (arith, h, free) in
      let read = at-assign items id other item in
      rw (sym same) (elim (Bool-cases (bytes_eq id other)) [
        | inl here ↦ rw (at, find_item, read, here) refl
        | inr there ↦ rw (at, find_item, read, there) refl
      ])
]

-- Add refuses a name exactly when it is bound.
pub add_refused :
    {S : Type 0} (items : List (Bytes × Item S)) (id : Bytes) (item : Item S)
    → ((old : Item S) × (at items id ≡ ok old)) ↔ (add items id item ≡ err option_already_exists)
unfolding at add find_item
add_refused items id item = elim (Option-cases (Map.at items id)) [
  | inr (old, bound) ↦
      ((λ _. rw (add, find_item, bound) refl), λ _. (old, rw (at, find_item, bound) refl))
  | inl free ↦ ((λ r. absurd (ground (arith, free, r.1))), λ r. absurd (ground (arith, free, r)))
]

-- Adds one after another, where the exception of each is caught.
unfoldable pub try_add :
    {S : Type 0} → List (Bytes × Item S) → Bytes → Item S → List (Bytes × Item S)
try_add items id item = elim (add items id item) [ ok items' ↦ items' | err e ↦ items ]

unfoldable pub try_add_all :
    {S : Type 0} → List (Bytes × Item S) → List (Bytes × Item S) → List (Bytes × Item S)
try_add_all items [] = items
try_add_all items ((id, item) ∷ rows) = try_add_all (try_add items id item) rows

-- The item of the first row with a name.
abbrev pub first_named : {S : Type 0} → Bytes → List (Bytes × Item S) → Result (Item S)
first_named other [] = err option_not_found
first_named other ((id, item) ∷ rows) =
    if bytes_eq id other then ok item else first_named other rows

abbrev pub or_first :
    {S : Type 0} → Result (Item S) → Bytes → List (Bytes × Item S) → Result (Item S)
or_first (ok item) other rows = ok item
or_first (err e) other rows = first_named other rows

at-cases :
    {S : Type 0} (items : List (Bytes × Item S)) (id : Bytes)
    → ((find_item items id ≡ none) × (at items id ≡ err option_not_found))
      ⊎ ((item : Item S) × (find_item items id ≡ some item) × (at items id ≡ ok item))
unfolding at
at-cases items id = elim (Option-cases (find_item items id)) [
  | inl free ↦ inl (free, rw (at, free) refl)
  | inr (item, bound) ↦ inr (item, bound, rw (at, bound) refl)
]

-- names that are not both bound or both free are different
other_name :
    {S : Type 0} (items : List (Bytes × Item S)) (id other : Bytes) (held : Item S)
    → ((find_item items id ≡ some held) × (find_item items other ≡ none))
      ⊎ ((find_item items id ≡ none) × (find_item items other ≡ some held))
    → bytes_eq id other ≡ false
other_name items id other held apart = elim (Bool-cases (bytes_eq id other)) [
  | inr differ ↦ differ
  | inl same ↦
      let found = ap (find_item items) ((bytes_eq_iff id other).0 same) in
      elim apart [
        | inl (bound, free) ↦ absurd (ground (arith, sym bound ∙ found ∙ free))
        | inr (free, bound) ↦ absurd (ground (arith, sym free ∙ found ∙ bound))
      ]
]

try_add-bound :
    {S : Type 0} (items : List (Bytes × Item S)) (id : Bytes) (item old : Item S)
    → find_item items id ≡ some old
    → try_add items id item ≡ items
unfolding try_add add
try_add-bound items id item old bound = rw (try_add, add, bound) refl

at-try_add_free :
    {S : Type 0} (items : List (Bytes × Item S)) (id other : Bytes) (item : Item S)
    → find_item items id ≡ none
    → at (try_add items id item) other ≡ (if bytes_eq id other then ok item else at items other)
unfolding try_add add
at-try_add_free items id other item free =
    let added : add items id item ≡ ok (Map.assign items id item) = rw (add, free) refl in
    let tried : try_add items id item ≡ Map.assign items id item = rw (try_add, add, free) refl in
    ap (λ l. at l other) tried ∙ at-add items (Map.assign items id item) id other item added

at-try_add :
    {S : Type 0} (items : List (Bytes × Item S)) (id other : Bytes) (item : Item S)
    → at (try_add items id item) other ≡ or_first (at items other) other ((id, item) ∷ [])
at-try_add items id other item = elim (at-cases items id) [
  | inl (free, _) ↦ at-try_add_free items id other item free ∙ elim (at-cases items other) [
    | inl (_, unbound) ↦ rw unbound refl
    | inr (held, bound, found) ↦ rw (other_name items id other held (inr (free, bound)), found) refl
  ]
  | inr (old, bound, _) ↦
      ap (λ l. at l other) (try_add-bound items id item old bound) ∙ elim (at-cases items other) [
        | inl (free, unbound) ↦ rw (unbound, other_name items id other old (inl (bound, free))) refl
        | inr (held, _, found) ↦ rw found refl
      ]
]

or_first-or_first :
    {S : Type 0} (found : Result (Item S)) (id other : Bytes) (item : Item S)
    (rows : List (Bytes × Item S))
    → or_first (or_first found other ((id, item) ∷ [])) other rows
      ≡ or_first found other ((id, item) ∷ rows)
or_first-or_first (ok held) id other item rows = refl
or_first-or_first (err e) id other item rows = elim (Bool-cases (bytes_eq id other)) [
  | inl same ↦ rw same refl
  | inr differ ↦ rw differ refl
]

-- When names are added one after another, and the exceptions for names that are bound already are caught, then a
-- name that was bound keeps its item, and any other is bound to the item of the first row that adds it,
-- or to none.
pub at-try_add_all :
    {S : Type 0} (items rows : List (Bytes × Item S)) (other : Bytes)
    → at (try_add_all items rows) other ≡ or_first (at items other) other rows
unfolding try_add_all
at-try_add_all items [] other = elim (at-cases items other) [
  | inl (free, unbound) ↦ rw unbound refl
  | inr (item, bound, held) ↦ rw held refl
]
at-try_add_all items ((id, item) ∷ rows) other =
    at-try_add_all (try_add items id item) rows other
    ∙ ap (λ found. or_first found other rows) (at-try_add items id other item)
    ∙ or_first-or_first (at items other) id other item rows
