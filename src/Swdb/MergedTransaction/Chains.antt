-- ===== src/Swdb/MergedTransaction/Chains.antt =====
-- A package that several transactions upgrade and downgrade.
use libhif.Base.{
  true, Option, none, some, List, [], ◌∷◌, ◌≡◌, inl, inr, refl, sym, ap, ◌∙◌, arith, Bytes,
}
use libhif.Swdb.Packages.{RpmItem, TransactionItem}
use libhif.Swdb.MergedTransaction.{
  ItemPair, Result, ok, throws, undefined, alone, resolve_packages, merge_pair, find, merge_items,
}
use libhif.Swdb.MergedTransaction.Pairs.{
  merge_found, merge_named, items_named, merge_items-find, Result-cases,
}
use libhif.Swdb.MergedTransaction.Steps.{
  Alteration, IsAlteration, Linked, last_rpm, chain_items, same_version, NetOf, Net,
  same_version_refl, pair_of, begin_found, complete, go_on_resolves, resolved_Net,
}

-- what one identifier has behind the items of one alteration
step_named :
    (a : Alteration) (found found1 : Option ItemPair) (r : Result (Option ItemPair))
    (ms : List TransactionItem)
    → merge_found found a.old ≡ ok found1
    → merge_found found1 a.new ≡ r
    → merge_named found (a.old ∷ a.new ∷ ms)
      ≡ (elim r [ ok found2 ↦ merge_named found2 ms | throws ↦ throws | undefined ↦ undefined ])
unfolding merge_named
step_named a found found1 r ms e e' = rw (merge_named, e, merge_named, e') refl

begin_Net :
    (a : Alteration) (base : RpmItem)
    → IsAlteration a
    → same_version base a.old_rpm ≡ true
    → Net base a.new_rpm (pair_of a)
unfolding Net NetOf
begin_Net a base is_so same = (a.old_rpm, is_so.0, is_so.1, same, is_so.2)

chain_Net :
    (chain : List Alteration) (base last : RpmItem) (first : TransactionItem)
    (second : Option TransactionItem) (found : Option ItemPair)
    → NetOf base last first second
    → Linked last chain
    → merge_named (some (record { first = first; second = second })) (chain_items chain) ≡ ok found
    → (p : ItemPair) × (found ≡ some p) × Net base (last_rpm last chain) p
unfolding Net NetOf Linked chain_items last_rpm merge_named
chain_Net [] base last first second found net linked e =
    (record { first = first; second = second }, ground (arith, e), net)
chain_Net (a ∷ chain) base last first none found net linked e =
    let (again, new_so) = begin_found a linked.1 in
    chain_Net chain base a.new_rpm a.old (some a.new) found
      (begin_Net a base linked.1 (ap (same_version base) linked.0 ∙ net.2)) linked.2
      (sym (
          step_named a (some (alone first)) (some (alone a.old)) (ok (some (pair_of a)))
            (chain_items chain) (again (alone first) net.1) new_so)
        ∙ e)
chain_Net (a ∷ chain) base last first (some second) found
      (first_rpm, held, held_second, same, paired) linked e =
    let (at_old, at_new) = go_on_resolves a base first_rpm first second linked.1 held paired in
    let pair = complete a base first_rpm first second in
    let stepped : (r : Result (Option ItemPair))
        → merge_pair pair a.new ≡ r
        → merge_named (some pair) (chain_items (a ∷ chain)) ≡ (elim r [
          | ok found2 ↦ merge_named found2 (chain_items chain)
          | throws ↦ throws
          | undefined ↦ undefined
        ]) =
      λ r new_so. step_named a (some pair) (some pair) r (chain_items chain) at_old new_so in
    elim (Result-cases (resolve_packages pair a.new first_rpm a.new_rpm)) [
      | inl (r, done) ↦
          chain_Net chain base a.new_rpm r.0.first r.0.second found
            (resolved_Net a base first_rpm first second r linked.1 held same done) linked.2
            (sym (stepped (ok (some r.0)) (at_new ∙ ground (arith, done))) ∙ e)
      | inr (inl fails) ↦
          absurd (ground (arith, sym (stepped throws (at_new ∙ ground (arith, fails))) ∙ e))
      | inr (inr fails) ↦
          absurd (ground (arith, sym (stepped undefined (at_new ∙ ground (arith, fails))) ∙ e))
    ]

-- Where the items of an identifier that has no pair yet are those of a chain of upgrades and
-- downgrades, each with its old package before its new one and from the package that the one before
-- has installed, and the merge ends without an exception, the identifier has one alteration or
-- reinstallation: it leads to the last package, and from the version and epoch of the first old one.
pub merge_items-Net :
    (name : Bytes) (rows rows' : List (Bytes × ItemPair)) (ms : List TransactionItem)
    (a : Alteration) (chain : List Alteration)
    → find name rows ≡ none
    → items_named name ms ≡ chain_items (a ∷ chain)
    → Linked a.old_rpm (a ∷ chain)
    → merge_items rows ms ≡ ok rows'
    → (p : ItemPair) × (find name rows' ≡ some p) × Net a.old_rpm (last_rpm a.new_rpm chain) p
unfolding Linked chain_items Net
merge_items-Net name rows rows' ms a chain fresh items linked e =
    let (again, new_so) = begin_found a linked.1 in
    let alone_first =
      step_named a none (some (alone a.old)) (ok (some (pair_of a))) (chain_items chain) refl
        new_so in
    let by_itself = merge_items-find name rows rows' ms e in
    chain_Net chain a.old_rpm a.new_rpm a.old (some a.new) (find name rows')
      (begin_Net a a.old_rpm linked.1 (same_version_refl a.old_rpm)) linked.2
      (sym alone_first
        ∙ ap (merge_named none) (sym items)
        ∙ ap (λ f. merge_named f (items_named name ms)) (sym fresh)
        ∙ by_itself)
