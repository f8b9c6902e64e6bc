-- ===== src/Swdb/MergedTransaction.antt =====
-- dnf-4/libdnf/transaction/MergedTransaction.cpp: several transactions as one. An item is in one pair at
-- most, so it is a value that has its action with it; that a Transaction which keeps its items sees the
-- actions that getItems() sets is not modelled.
pub mod Pairs
pub mod Steps
pub mod Chains
pub mod Installed
pub mod Numeric
pub mod Total
pub mod Sorted
mod Tests
use libhif.Base.{
  ℕ, zero, suc, ◌+◌, ◌-◌, ◌*◌, ◌^◌, Bool, true, false, not, ◌&&◌, ◌||◌, Option, none, some, List,
  [], ◌∷◌, ◌++◌, Bytes, ◌==◌, ltb, leb, if◌then◌else◌, is_empty, bytes_eq,
}
use libhif.Swdb.Packages.{
  Action, Item, RpmItem, TransactionItem, downgrade, downgraded, environment, group, install,
  is_backward_action, lower, lower_version, obsolete, obsoleted, pieces, reason_change, reinstall,
  reinstalled, remove, rpm, set_action, stoi, unknown, upgrade, upgraded,
}

pub record ItemPair : Type 0 where
  pub first : TransactionItem
  pub second : Option TransactionItem

pub get_item_identifier : Item → Bytes
get_item_identifier unknown = []
get_item_identifier (rpm r) = r.name ++ (b'.' ∷ r.arch)
get_item_identifier (group id) = id
get_item_identifier (environment id) = id

-- `throws` is an exception of std::stoi, `undefined` a read through a null pointer
pub data Result {ℓ} (A : Type ℓ) : Type ℓ where
  ok : A → Result A
  throws : Result A
  undefined : Result A

-- the new item alone
abbrev pub alone : TransactionItem → ItemPair
alone m = record { first = m; second = none }

-- the previous pair and the new item that resolveRPMDifference leaves, for the packages of the two
pub resolve_packages :
    ItemPair → TransactionItem → RpmItem → RpmItem → Result (ItemPair × TransactionItem)
resolve_packages previous m first_rpm second_rpm =
    if bytes_eq first_rpm.version second_rpm.version && first_rpm.epoch == second_rpm.epoch
    then ok (alone (set_action m reinstall), set_action m reinstall)
    else elim (lower first_rpm second_rpm) [
      | none ↦ throws
      | some true ↦
          let m' = set_action m upgrade in
          ok (record { first = set_action previous.first upgraded; second = some m' }, m')
      | some false ↦
          let m' = set_action m downgrade in
          ok (record { first = set_action previous.first downgraded; second = some m' }, m')
    ]

pub resolve_rpm_difference : ItemPair → TransactionItem → Result (ItemPair × TransactionItem)
resolve_rpm_difference previous m = elim previous.first.item [
  | rpm first_rpm ↦ elim m.item [
    | rpm second_rpm ↦ resolve_packages previous m first_rpm second_rpm
    | unknown ↦ undefined
    | group id ↦ undefined
    | environment id ↦ undefined
  ]
  | unknown ↦ undefined
  | group id ↦ undefined
  | environment id ↦ undefined
]

abbrev pub is_rpm : Item → Bool
is_rpm (rpm r) = true
is_rpm _ = false

abbrev pub is_install : Action → Bool
is_install install = true
is_install _ = false

pub resolve_erase : ItemPair → TransactionItem → Result ItemPair
resolve_erase previous m =
    if is_install m.action
    then if is_rpm m.item
      then elim (resolve_rpm_difference previous m) [
        | ok (pair, m') ↦ ok (record pair { first = m'; second = none })
        | throws ↦ throws
        | undefined ↦ undefined
      ]
      else ok (alone (set_action m reinstall))
    else ok (alone m)

-- a removed package is removed with the pair's old item
abbrev pub resolve_removal : ItemPair → Action → ItemPair
resolve_removal previous new_state = alone (set_action previous.first new_state)

-- an old package completes a pair that has the new one alone
abbrev pub resolve_old : ItemPair → TransactionItem → ItemPair
resolve_old previous m = elim previous.second [
  | some s ↦ previous
  | none ↦ elim previous.first.action [
    | downgrade ↦ record { first = m; second = some previous.first }
    | upgrade ↦ record { first = m; second = some previous.first }
    | _ ↦ previous
  ]
]

-- a new package completes a pair, or is compared with the old one of a complete pair
abbrev pub resolve_new : ItemPair → TransactionItem → Result ItemPair
resolve_new previous m = elim previous.second [
  | none ↦ ok (record previous { second = some m })
  | some s ↦
      if is_rpm m.item
      then elim (resolve_rpm_difference previous m) [
        | ok (pair, m') ↦ ok pair
        | throws ↦ throws
        | undefined ↦ undefined
      ]
      else ok (alone (set_action s reinstall))
]

pub resolve_altered : ItemPair → TransactionItem → Result ItemPair
resolve_altered previous m = elim m.action [
  | remove ↦ ok (resolve_removal previous remove)
  | obsoleted ↦ ok (resolve_removal previous obsoleted)
  | downgraded ↦ ok (resolve_old previous m)
  | upgraded ↦ ok (resolve_old previous m)
  | downgrade ↦ resolve_new previous m
  | upgrade ↦ resolve_new previous m
  | _ ↦ ok previous
]

abbrev pub kept : Result ItemPair → Result (Option ItemPair)
kept (ok pair) = ok (some pair)
kept throws = throws
kept undefined = undefined

-- the cases of mergeItem for an identifier that has a pair; `none` erases the pair
pub merge_pair : ItemPair → TransactionItem → Result (Option ItemPair)
merge_pair previous m =
    if is_install previous.first.action && is_backward_action m.action
    then ok (some previous)
    else elim previous.first.action [
      | remove ↦ kept (resolve_erase previous m)
      | obsoleted ↦ kept (resolve_erase previous m)
      | install ↦ elim m.action [
        | remove ↦ ok none
        | obsoleted ↦ ok none
        | _ ↦ ok (some (alone (set_action m install)))
      ]
      | reinstall ↦ ok (some (alone m))
      | reason_change ↦ ok (some (alone m))
      | downgrade ↦ kept (resolve_altered previous m)
      | downgraded ↦ kept (resolve_altered previous m)
      | upgrade ↦ kept (resolve_altered previous m)
      | upgraded ↦ kept (resolve_altered previous m)
      | obsolete ↦ kept (resolve_altered previous m)
      | reinstalled ↦ ok (some previous)
    ]

-- std::map by identifier, in ascending order
pub bytes_lt : Bytes → Bytes → Bool
bytes_lt [] [] = false
bytes_lt [] (b ∷ bs) = true
bytes_lt (a ∷ xs) [] = false
bytes_lt (a ∷ xs) (b ∷ ys) = ltb a b || (a == b && bytes_lt xs ys)

pub find : Bytes → List (Bytes × ItemPair) → Option ItemPair
find name [] = none
find name (row ∷ rows) = if bytes_eq row.0 name then some row.1 else find name rows

pub store : Bytes → ItemPair → List (Bytes × ItemPair) → List (Bytes × ItemPair)
store name pair [] = (name, pair) ∷ []
store name pair (row ∷ rows) =
    if bytes_eq row.0 name
    then (name, pair) ∷ rows
    else if bytes_lt name row.0
    then (name, pair) ∷ row ∷ rows
    else row ∷ store name pair rows

pub erase : Bytes → List (Bytes × ItemPair) → List (Bytes × ItemPair)
erase name [] = []
erase name (row ∷ rows) = if bytes_eq row.0 name then erase name rows else row ∷ erase name rows

-- what a case of mergeItem does to the map
abbrev pub update :
    Bytes → Result (Option ItemPair) → List (Bytes × ItemPair) → Result (List (Bytes × ItemPair))
update name (ok (some pair)) rows = ok (store name pair rows)
update name (ok none) rows = ok (erase name rows)
update name throws rows = throws
update name undefined rows = undefined

pub merge_item : List (Bytes × ItemPair) → TransactionItem → Result (List (Bytes × ItemPair))
merge_item rows m =
    let name = get_item_identifier m.item in
    elim (find name rows) [
      | none ↦ ok (store name (alone m) rows)
      | some previous ↦ update name (merge_pair previous m) rows
    ]

-- the loops of getItems() over the items of the transactions
pub merge_items : List (Bytes × ItemPair) → List TransactionItem → Result (List (Bytes × ItemPair))
merge_items rows [] = ok rows
merge_items rows (m ∷ ms) = elim (merge_item rows m) [
  | ok rows' ↦ merge_items rows' ms
  | throws ↦ throws
  | undefined ↦ undefined
]

-- the items of the pairs
pub items_of : List (Bytes × ItemPair) → List TransactionItem
items_of [] = []
items_of (row ∷ rows) = elim row.1.second [
  | none ↦ row.1.first ∷ items_of rows
  | some second ↦ row.1.first ∷ second ∷ items_of rows
]

-- a Transaction, with what its methods give
pub record Transaction : Type 0 where
  pub id : ℕ
  pub user_id : ℕ
  pub cmdline : Bytes
  pub releasever : Bytes
  pub dt_begin : ℕ
  pub dt_end : ℕ
  pub items : List TransactionItem

-- MergedTransaction::merge
pub merge : List Transaction → Transaction → List Transaction
merge [] trans = trans ∷ []
merge (t ∷ transactions) trans =
    if ltb trans.id t.id then trans ∷ t ∷ transactions else t ∷ merge transactions trans

pub list_ids : List Transaction → List ℕ
list_ids [] = []
list_ids (t ∷ transactions) = t.id ∷ list_ids transactions

pub list_user_ids : List Transaction → List ℕ
list_user_ids [] = []
list_user_ids (t ∷ transactions) = t.user_id ∷ list_user_ids transactions

pub list_cmdlines : List Transaction → List Bytes
list_cmdlines [] = []
list_cmdlines (t ∷ transactions) = t.cmdline ∷ list_cmdlines transactions

-- the items of the transactions, one transaction after another
pub all_items : List Transaction → List TransactionItem
all_items [] = []
all_items (t ∷ transactions) = t.items ++ all_items transactions

pub get_items : List Transaction → Result (List TransactionItem)
get_items transactions = elim (merge_items [] (all_items transactions)) [
  | ok rows ↦ ok (items_of rows)
  | throws ↦ throws
  | undefined ↦ undefined
]
