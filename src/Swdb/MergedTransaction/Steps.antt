-- ===== src/Swdb/MergedTransaction/Steps.antt =====
-- Upgrades and downgrades of a package: what one of them does to the pair of its identifier.
use libhif.Base.{
  Bool, true, false, ◌&&◌, Option, none, some, List, [], ◌∷◌, ◌≡◌, ◌⊎◌, inl, inr, refl, arith, ◌==◌,
  bytes_eq, bytes_eq_iff, Bool-cases, Option-cases,
}
use libhif.Swdb.Packages.{
  Action, downgrade, downgraded, upgrade, upgraded, reinstall, rpm, RpmItem, TransactionItem,
  set_action, lower,
}
use libhif.Swdb.MergedTransaction.{
  ItemPair, ok, throws, undefined, alone, resolve_packages, resolve_rpm_difference, resolve_altered,
  merge_pair,
}

-- an old package and the new one in its place
pub record Alteration : Type 0 where
  pub old : TransactionItem
  pub new : TransactionItem
  pub old_rpm : RpmItem
  pub new_rpm : RpmItem

abbrev pub matched : Action → Action → Bool
matched upgraded upgrade = true
matched downgraded downgrade = true
matched _ _ = false

abbrev pub IsAlteration : Alteration → Type 0
IsAlteration a =
    (a.old.item ≡ rpm a.old_rpm)
    × (a.new.item ≡ rpm a.new_rpm)
    × (matched a.old.action a.new.action ≡ true)

-- every alteration starts from the package that the one before has put there
unfoldable pub Linked : RpmItem → List Alteration → Type 0
Linked last [] = Unit
Linked last (a ∷ chain) = (a.old_rpm ≡ last) × IsAlteration a × Linked a.new_rpm chain

unfoldable pub last_rpm : RpmItem → List Alteration → RpmItem
last_rpm last [] = last
last_rpm last (a ∷ chain) = last_rpm a.new_rpm chain

-- their items in order, the old package first
unfoldable pub chain_items : List Alteration → List TransactionItem
chain_items [] = []
chain_items (a ∷ chain) = a.old ∷ a.new ∷ chain_items chain

abbrev pub same_version : RpmItem → RpmItem → Bool
same_version a b = bytes_eq a.version b.version && a.epoch == b.epoch

-- One alteration from the version of `base` to `last`, or a reinstallation of that version.
unfoldable pub NetOf : RpmItem → RpmItem → TransactionItem → Option TransactionItem → Type 0
NetOf base last first none =
    (first.item ≡ rpm last) × (first.action ≡ reinstall) × (same_version base last ≡ true)
NetOf base last first (some second) =
    (first_rpm : RpmItem) × (first.item ≡ rpm first_rpm)
    × (second.item ≡ rpm last)
    × (same_version base first_rpm ≡ true)
    × (matched first.action second.action ≡ true)

unfoldable pub Net : RpmItem → RpmItem → ItemPair → Type 0
Net base last pair = NetOf base last pair.first pair.second

pub same_version_refl : (a : RpmItem) → same_version a a ≡ true
same_version_refl a = ground (arith, bytes_eq_iff a.version a.version)

same_version_trans :
    (a b c : RpmItem) → same_version a b ≡ true → same_version b c ≡ true → same_version a c ≡ true
same_version_trans a b c e f = ground (
  arith,
  e,
  f,
  bytes_eq_iff a.version b.version,
  bytes_eq_iff b.version c.version,
  bytes_eq_iff a.version c.version,
)

Action-matched :
    (a b : Action)
    → matched a b ≡ true
    → ((a ≡ upgraded) × (b ≡ upgrade)) ⊎ ((a ≡ downgraded) × (b ≡ downgrade))
Action-matched upgraded upgrade e = inl (refl, refl)
Action-matched downgraded downgrade e = inr (refl, refl)
Action-matched a b e = absurd (ground (arith, e))

-- the pair of the old and the new package of one alteration
abbrev pub pair_of : Alteration → ItemPair
pair_of a = record { first = a.old; second = some a.new }

-- from nothing, or from a reinstallation
pub begin_found :
    (a : Alteration)
    → IsAlteration a
    → ((p : ItemPair) → p.first.action ≡ reinstall → merge_pair p a.old ≡ ok (some (alone a.old)))
      × (merge_pair (alone a.old) a.new ≡ ok (some (pair_of a)))
unfolding merge_pair resolve_altered
begin_found a is_so = elim (Action-matched a.old.action a.new.action is_so.2) [
  | inl (o, n) ↦ (λ p e. ground (arith, e, o), ground (arith, o, n))
  | inr (o, n) ↦ (λ p e. ground (arith, e, o), ground (arith, o, n))
]

abbrev altered : Bool → TransactionItem → TransactionItem → ItemPair
altered true old new = record {
  first = set_action old upgraded;
  second = some (set_action new upgrade);
}
altered false old new = record {
  first = set_action old downgraded;
  second = some (set_action new downgrade);
}

resolve_packages_cases :
    (p : ItemPair) (m : TransactionItem) (f s : RpmItem) (r : ItemPair × TransactionItem)
    → resolve_packages p m f s ≡ ok r
    → ((same_version f s ≡ true) × (r.0 ≡ alone (set_action m reinstall)))
      ⊎ ((up : Bool) × (r.0 ≡ altered up p.first m))
unfolding resolve_packages
resolve_packages_cases p m f s r e = elim (Bool-cases (same_version f s)) [
  | inl same ↦ inl (same, ground (arith, e, same))
  | inr differs ↦ elim (Option-cases (lower f s)) [
    | inl fails ↦ ground (arith, e, differs, fails)
    | inr (true, is_lower) ↦ inr (true, ground (arith, e, differs, is_lower))
    | inr (false, is_lower) ↦ inr (false, ground (arith, e, differs, is_lower))
  ]
]

module _ (a : Alteration) (base first_rpm : RpmItem) (first second : TransactionItem) where
  abbrev pub complete : ItemPair
  complete = record { first = first; second = some second }

  pub go_on_resolves :
      IsAlteration a
      → first.item ≡ rpm first_rpm
      → matched first.action second.action ≡ true
      → (merge_pair complete a.old ≡ ok (some complete))
        × (merge_pair complete a.new ≡ (elim (resolve_packages complete a.new first_rpm a.new_rpm) [
          | ok r ↦ ok (some r.0)
          | throws ↦ throws
          | undefined ↦ undefined
        ]))
  unfolding merge_pair resolve_altered resolve_rpm_difference
  go_on_resolves is_so held pair_so = elim (Action-matched first.action second.action pair_so) [
    | inl (e, e') ↦ elim (Action-matched a.old.action a.new.action is_so.2) [
      | inl (o, n) ↦ ground (arith, e, o, n, held, is_so.1)
      | inr (o, n) ↦ ground (arith, e, o, n, held, is_so.1)
    ]
    | inr (e, e') ↦ elim (Action-matched a.old.action a.new.action is_so.2) [
      | inl (o, n) ↦ ground (arith, e, o, n, held, is_so.1)
      | inr (o, n) ↦ ground (arith, e, o, n, held, is_so.1)
    ]
  ]

  pub resolved_Net :
      (r : ItemPair × TransactionItem)
      → IsAlteration a
      → first.item ≡ rpm first_rpm
      → same_version base first_rpm ≡ true
      → resolve_packages complete a.new first_rpm a.new_rpm ≡ ok r
      → Net base a.new_rpm r.0
  unfolding Net NetOf
  resolved_Net r is_so held same e =
      elim (resolve_packages_cases complete a.new first_rpm a.new_rpm r e) [
        | inl (same', at_r) ↦
            rw at_r (is_so.1, refl, same_version_trans base first_rpm a.new_rpm same same')
        | inr (true, at_r) ↦ rw at_r (first_rpm, held, is_so.1, same, refl)
        | inr (false, at_r) ↦ rw at_r (first_rpm, held, is_so.1, same, refl)
      ]
