-- ===== src/Swdb/MergedTransaction/Installed.antt =====
-- A package that the first of the transactions installs.
use libhif.Base.{
  some, List, [], ◌∷◌, ◌≡◌, ◌⊎◌, inl, inr, refl, sym, ap, ◌∙◌, arith, Bytes, Bool-cases,
}
use libhif.Swdb.Packages.{install, TransactionItem, is_backward_action, set_action}
use libhif.Swdb.MergedTransaction.{ItemPair, ok, alone, merge_pair, find, merge_items}
use libhif.Swdb.MergedTransaction.Pairs.{merge_named, items_named, merge_items-find}

pub merge_pair-install :
    (p : ItemPair) (m : TransactionItem)
    → p.first.action ≡ install
    → (merge_pair p m ≡ ok (some p)) ⊎ (merge_pair p m ≡ ok (some (alone (set_action m install))))
unfolding merge_pair is_backward_action
merge_pair-install p m e = elim (Bool-cases (is_backward_action m.action)) [
  | inl back ↦ inl (ground (arith, e, back))
  | inr forth ↦ inr (ground (arith, e, forth))
]

merge_named-install :
    (ms : List TransactionItem) (p : ItemPair)
    → p.first.action ≡ install
    → (p' : ItemPair) × (merge_named (some p) ms ≡ ok (some p')) × (p'.first.action ≡ install)
unfolding merge_named
merge_named-install [] p e = (p, refl, e)
merge_named-install (m ∷ ms) p e = elim (merge_pair-install p m e) [
  | inl stays ↦ rw (merge_named, stays) (merge_named-install ms p e)
  | inr new_item ↦
      rw (merge_named, new_item) (merge_named-install ms (alone (set_action m install)) refl)
]

-- An identifier that was merged to an installation stays one, whatever items follow, also where they remove the
-- package, and where the merge ends without an exception. The comments of MergedTransaction.cpp say
-- otherwise: that an installation and a removal behind it give nothing. mergeItem returns before that case.
pub merge_items-install :
    (name : Bytes) (rows rows' : List (Bytes × ItemPair)) (ms : List TransactionItem) (p : ItemPair)
    → find name rows ≡ some p
    → p.first.action ≡ install
    → merge_items rows ms ≡ ok rows'
    → (p' : ItemPair) × (find name rows' ≡ some p') × (p'.first.action ≡ install)
merge_items-install name rows rows' ms p held e done =
    let (p', merged, still) = merge_named-install (items_named name ms) p e in
    let by_itself = merge_items-find name rows rows' ms done in
    (
      p',
      ground (arith, sym by_itself ∙ ap (λ f. merge_named f (items_named name ms)) held ∙ merged),
      still,
    )
