-- ===== src/Swdb/MergedTransaction/Pairs.antt =====
-- What merging does to one identifier: the other items do not matter to it.
use libhif.Base.{
  true, false, Option, none, some, List, [], ◌∷◌, ◌≡◌, ◌⊎◌, inl, inr, refl, sym, ap, ◌∙◌, arith,
  Bytes, if◌then◌else◌, bytes_eq, bytes_eq_iff, Option-cases,
}
use libhif.Swdb.Packages.{TransactionItem}
use libhif.Swdb.MergedTransaction.{
  ItemPair, Result, ok, throws, undefined, get_item_identifier, alone, merge_pair, find, store,
  erase, update, merge_item, merge_items,
}

pub find-store :
    (name name' : Bytes) (pair : ItemPair) (rows : List (Bytes × ItemPair))
    → find name (store name' pair rows)
      ≡ (if bytes_eq name' name then some pair else find name rows)
unfolding find store
find-store name name' pair [] = refl
find-store name name' pair (row ∷ rows) = ground (
  arith,
  bytes_eq_iff row.0 name',
  bytes_eq_iff row.0 name,
  bytes_eq_iff name' name,
  find-store name name' pair rows,
)

pub find-erase :
    (name name' : Bytes) (rows : List (Bytes × ItemPair))
    → find name (erase name' rows) ≡ (if bytes_eq name' name then none else find name rows)
unfolding find erase
find-erase name name' [] = ground arith
find-erase name name' (row ∷ rows) = ground (
  arith,
  bytes_eq_iff row.0 name',
  bytes_eq_iff row.0 name,
  bytes_eq_iff name' name,
  find-erase name name' rows,
)

pub Result-cases :
    {A : Type 0} (r : Result A) → ((a : A) × (r ≡ ok a)) ⊎ ((r ≡ throws) ⊎ (r ≡ undefined))
Result-cases (ok a) = inl (a, refl)
Result-cases throws = inr (inl refl)
Result-cases undefined = inr (inr refl)

-- the items of one identifier
unfoldable pub items_named : Bytes → List TransactionItem → List TransactionItem
items_named name [] = []
items_named name (m ∷ ms) =
    if bytes_eq (get_item_identifier m.item) name
    then m ∷ items_named name ms
    else items_named name ms

-- an item on what its identifier has so far
abbrev pub merge_found : Option ItemPair → TransactionItem → Result (Option ItemPair)
merge_found none m = ok (some (alone m))
merge_found (some previous) m = merge_pair previous m

-- the pair of one identifier behind a list of its items
unfoldable pub merge_named : Option ItemPair → List TransactionItem → Result (Option ItemPair)
merge_named found [] = ok found
merge_named found (m ∷ ms) = elim (merge_found found m) [
  | ok found' ↦ merge_named found' ms
  | throws ↦ throws
  | undefined ↦ undefined
]

pub merge_item-update :
    (rows : List (Bytes × ItemPair)) (m : TransactionItem)
    → merge_item rows m
      ≡ (let name = get_item_identifier m.item in update name (merge_found (find name rows) m) rows)
unfolding merge_item
merge_item-update rows m = elim (Option-cases (find (get_item_identifier m.item) rows)) [
  | inl e ↦ ground (arith, e)
  | inr (pair, e) ↦ ground (arith, e)
]

-- the pairs behind a case of mergeItem
update-find :
    (name named_so : Bytes) (r : Result (Option ItemPair)) (rows rows' : List (Bytes × ItemPair))
    → update named_so r rows ≡ ok rows'
    → ((bytes_eq named_so name ≡ true) × (r ≡ ok (find name rows')))
      ⊎ ((bytes_eq named_so name ≡ false) × (find name rows' ≡ find name rows))
update-find name named_so (ok none) rows rows' e = ground (arith, e, find-erase name named_so rows)
update-find name named_so (ok (some pair)) rows rows' e =
    ground (arith, e, find-store name named_so pair rows)
update-find name named_so throws rows rows' e = ground (arith, e)
update-find name named_so undefined rows rows' e = ground (arith, e)

-- the pair of a name behind one item
merge_item-find :
    (name : Bytes) (rows rows' : List (Bytes × ItemPair)) (m : TransactionItem)
    (ms : List TransactionItem)
    → merge_item rows m ≡ ok rows'
    → merge_named (find name rows) (items_named name (m ∷ ms))
      ≡ merge_named (find name rows') (items_named name ms)
unfolding merge_named items_named
merge_item-find name rows rows' m ms e =
    let id = get_item_identifier m.item in
    let answer = merge_found (find id rows) m in
    elim (update-find name id answer rows rows' (sym (merge_item-update rows m) ∙ e)) [
      | inl (same, given) ↦
          let at_name =
            ap (λ n. merge_found (find n rows) m) (sym ((bytes_eq_iff id name).0 same)) ∙ given in
          ground (arith, same, at_name)
      | inr (differs, kept_so) ↦ ground (arith, differs, kept_so)
    ]

-- The pair of an identifier behind all items, where the merge ends without an exception, is the
-- one that its own items give by themselves, in their order.
pub merge_items-find :
    (name : Bytes) (rows rows' : List (Bytes × ItemPair)) (ms : List TransactionItem)
    → merge_items rows ms ≡ ok rows'
    → merge_named (find name rows) (items_named name ms) ≡ ok (find name rows')
unfolding merge_items merge_named items_named
merge_items-find name rows rows' [] e = ground (arith, e)
merge_items-find name rows rows' (m ∷ ms) e = elim (Result-cases (merge_item rows m)) [
  | inl (rows1, e1) ↦
      merge_item-find name rows rows1 m ms e1
      ∙ merge_items-find name rows1 rows' ms (ground (arith, e, e1))
  | inr (inl e1) ↦ ground (arith, e, e1)
  | inr (inr e1) ↦ ground (arith, e, e1)
]
