-- ===== src/Swdb/MergedTransaction/Total.antt =====
-- Merging of packages whose versions are numbers between dots: no exception.
use libhif.Swdb.MergedTransaction.Pairs.{merge_found, merge_item-update}
use libhif.Base.{
  Option, none, some, List, [], ◌∷◌, ◌≡◌, inl, inr, refl, ap, ◌∙◌, arith, Bytes, bytes_eq, All,
  Bool-cases,
}
use libhif.Swdb.Packages.{TransactionItem}
use libhif.Swdb.MergedTransaction.{
  ItemPair, ok, get_item_identifier, alone, bytes_lt, find, store, erase, update, merge_item,
  merge_items,
}
use libhif.Swdb.MergedTransaction.Numeric.{
  IsNumeric, PairFits, FoundFits, FoundAnswers, merge_pair_total,
}

-- every pair fits
unfoldable pub RowsFit : List (Bytes × ItemPair) → Type 0
RowsFit rows = All (λ row. PairFits row.1) rows

find_fits :
    (name : Bytes) (rows : List (Bytes × ItemPair)) → RowsFit rows → FoundFits (find name rows)
unfolding find RowsFit
find_fits name [] fits = tt
find_fits name (row ∷ rows) fits = elim (Bool-cases (bytes_eq row.0 name)) [
  | inl here ↦ rw here fits.0
  | inr there ↦ rw there (find_fits name rows fits.1)
]

store_fits :
    (name : Bytes) (p : ItemPair) (rows : List (Bytes × ItemPair))
    → PairFits p
    → RowsFit rows
    → RowsFit (store name p rows)
unfolding store RowsFit
store_fits name p [] p_fits fits = (p_fits, tt)
store_fits name p (row ∷ rows) p_fits fits = elim (Bool-cases (bytes_eq row.0 name)) [
  | inl here ↦ rw here (p_fits, fits.1)
  | inr there ↦ elim (Bool-cases (bytes_lt name row.0)) [
    | inl before ↦ rw (there, before) (p_fits, fits)
    | inr behind ↦ rw (there, behind) (fits.0, store_fits name p rows p_fits fits.1)
  ]
]

erase_fits :
    (name : Bytes) (rows : List (Bytes × ItemPair)) → RowsFit rows → RowsFit (erase name rows)
unfolding erase RowsFit
erase_fits name [] fits = tt
erase_fits name (row ∷ rows) fits = elim (Bool-cases (bytes_eq row.0 name)) [
  | inl here ↦ rw here (erase_fits name rows fits.1)
  | inr there ↦ rw there (fits.0, erase_fits name rows fits.1)
]

merge_found_total :
    (found : Option ItemPair) (m : TransactionItem)
    → FoundFits found
    → IsNumeric m
    → FoundAnswers (merge_found found m)
merge_found_total none m fits numeric = (some (alone m), refl, (numeric, tt))
merge_found_total (some p) m fits numeric = merge_pair_total p m fits numeric

update_total :
    (name : Bytes) (found : Option ItemPair) (rows : List (Bytes × ItemPair))
    → FoundFits found
    → RowsFit rows
    → (rows' : List (Bytes × ItemPair)) × (update name (ok found) rows ≡ ok rows') × RowsFit rows'
update_total name none rows found_fits fits = (erase name rows, refl, erase_fits name rows fits)
update_total name (some p) rows found_fits fits =
    (store name p rows, refl, store_fits name p rows found_fits fits)

merge_item_total :
    (rows : List (Bytes × ItemPair)) (m : TransactionItem)
    → RowsFit rows
    → IsNumeric m
    → (rows' : List (Bytes × ItemPair)) × (merge_item rows m ≡ ok rows') × RowsFit rows'
merge_item_total rows m fits numeric =
    let name = get_item_identifier m.item in
    let (found, done, found_fits) =
      merge_found_total (find name rows) m (find_fits name rows fits) numeric in
    let (rows', updated, fits') = update_total name found rows found_fits fits in
    (rows', merge_item-update rows m ∙ ap (λ r. update name r rows) done ∙ updated, fits')

-- Where every item is a package whose version is numbers between dots, and the pairs so far are made of
-- such packages with the new one of an upgrade or a downgrade for second item, the merge ends without
-- an exception, and its pairs are like that too.
pub merge_items_total :
    (rows : List (Bytes × ItemPair)) (ms : List TransactionItem)
    → RowsFit rows
    → All IsNumeric ms
    → (rows' : List (Bytes × ItemPair)) × (merge_items rows ms ≡ ok rows') × RowsFit rows'
unfolding merge_items
merge_items_total rows [] fits numeric = (rows, refl, fits)
merge_items_total rows (m ∷ ms) fits numeric =
    let (rows1, done, fits1) = merge_item_total rows m fits numeric.0 in
    let (rows', merged, fits') = merge_items_total rows1 ms fits1 numeric.1 in
    (rows', ground (arith, done, merged), fits')
