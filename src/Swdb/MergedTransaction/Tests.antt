-- ===== src/Swdb/MergedTransaction/Tests.antt =====
-- MergedTransaction: runs, and the properties at small histories.
use Prim.Native.String.{String}
use libhif.Base.{ℕ, true, none, some, List, [], ◌∷◌, ◌≡◌, refl, Bytes, codes, bytes_eq}
use libhif.Swdb.Packages.{
  Action, install, remove, upgrade, upgraded, reinstall, rpm, RpmItem, TransactionItem,
  is_backward_action, skip_spaces, digits, starts_with_digit, stoi, pieces, lower_version, lower,
}
use libhif.Swdb.MergedTransaction.{
  ItemPair, ok, throws, get_item_identifier, resolve_packages, resolve_rpm_difference,
  resolve_erase, resolve_altered, merge_pair, bytes_lt, find, store, erase, merge_item, merge_items,
  items_of, Transaction, merge, list_ids, all_items, get_items,
}
use libhif.Swdb.MergedTransaction.Pairs.{merge_named, items_named, merge_items-find}
use libhif.Swdb.MergedTransaction.Steps.{Alteration, Linked, last_rpm, chain_items, NetOf, Net}
use libhif.Swdb.MergedTransaction.Chains.{merge_items-Net}
use libhif.Swdb.MergedTransaction.Installed.{merge_items-install}
use libhif.Swdb.MergedTransaction.Total.{RowsFit, merge_items_total}
use libhif.Swdb.MergedTransaction.Sorted.{IsAscending, merge_all}

runs : Unit {0}
unfolding is_backward_action skip_spaces digits starts_with_digit stoi pieces lower_version lower
    get_item_identifier resolve_packages resolve_rpm_difference resolve_erase resolve_altered
    merge_pair bytes_lt find store erase merge_item merge_items items_of merge list_ids all_items
    get_items bytes_eq merge_named items_named Linked last_rpm chain_items NetOf Net RowsFit
    IsAscending merge_all
runs = tt

abbrev package_of : String → String → String → RpmItem
package_of name version release = record {
  name = codes name;
  epoch = 0;
  version = codes version;
  release = codes release;
  arch = codes "x86_64";
}

abbrev item_of : String → String → Action → TransactionItem
item_of name version action = record {
  item = rpm (package_of name version "1");
  repoid = codes "base";
  action = action;
}

-- foo from 1.9 over 1.10 to 2.0, with bar between them
abbrev first_step : Alteration
first_step = record {
  old = item_of "foo" "1.9" upgraded;
  new = item_of "foo" "1.10" upgrade;
  old_rpm = package_of "foo" "1.9" "1";
  new_rpm = package_of "foo" "1.10" "1";
}

abbrev second_step : Alteration
second_step = record {
  old = item_of "foo" "1.10" upgraded;
  new = item_of "foo" "2.0" upgrade;
  old_rpm = package_of "foo" "1.10" "1";
  new_rpm = package_of "foo" "2.0" "1";
}

abbrev history : List TransactionItem
history =
    first_step.old
    ∷ first_step.new
    ∷ item_of "bar" "1" install
    ∷ second_step.old
    ∷ second_step.new
    ∷ item_of "bar" "1" remove
    ∷ []

abbrev foo : Bytes
foo = codes "foo.x86_64"

abbrev bar : Bytes
bar = codes "bar.x86_64"

abbrev merged : List (Bytes × ItemPair)
merged =
    (bar, record { first = item_of "bar" "1" install; second = none })
    ∷ (
      foo,
      record { first = item_of "foo" "1.9" upgraded; second = some (item_of "foo" "2.0" upgrade) },
    )
    ∷ []

merges : merge_items [] history ≡ ok merged
unfolding runs
merges = refl

merge_items-find_example :
    merge_named none (item_of "bar" "1" install ∷ item_of "bar" "1" remove ∷ [])
    ≡ ok (some (record { first = item_of "bar" "1" install; second = none }))
unfolding runs
merge_items-find_example = merge_items-find bar [] merged history merges

merge_items-Net_example :
    (p : ItemPair) × (find foo merged ≡ some p)
    × Net (package_of "foo" "1.9" "1") (package_of "foo" "2.0" "1") p
unfolding runs
merge_items-Net_example =
    merge_items-Net foo [] merged history first_step (second_step ∷ []) refl refl
      (refl, (refl, refl, refl), (refl, (refl, refl, refl), tt)) merges

-- bar was installed and then removed
merge_items-install_example :
    (p : ItemPair) × (find bar merged ≡ some p) × (p.first.action ≡ install)
unfolding runs
merge_items-install_example =
    merge_items-install bar
      ((bar, record { first = item_of "bar" "1" install; second = none }) ∷ [])
      ((bar, record { first = item_of "bar" "1" install; second = none }) ∷ [])
      (item_of "bar" "1" remove ∷ []) (record { first = item_of "bar" "1" install; second = none })
      refl refl refl

merge_items_total_example :
    (rows : List (Bytes × ItemPair)) × (merge_items [] history ≡ ok rows) × RowsFit rows
unfolding runs
merge_items_total_example = merge_items_total [] history tt (
  (package_of "foo" "1.9" "1", refl, ((2147483649, refl), ((2147483657, refl), tt))),
  (
    (package_of "foo" "1.10" "1", refl, ((2147483649, refl), ((2147483658, refl), tt))),
    (
      (package_of "bar" "1" "1", refl, ((2147483649, refl), tt)),
      (
        (package_of "foo" "1.10" "1", refl, ((2147483649, refl), ((2147483658, refl), tt))),
        (
          (package_of "foo" "2.0" "1", refl, ((2147483650, refl), ((2147483648, refl), tt))),
          ((package_of "bar" "1" "1", refl, ((2147483649, refl), tt)), tt),
        ),
      ),
    ),
  ),
)

abbrev transaction : ℕ → Transaction
transaction id = record {
  id = id;
  user_id = 1000;
  cmdline = codes "upgrade";
  releasever = codes "33";
  dt_begin = id;
  dt_end = id;
  items = [];
}

-- an upgrade to another release of the same version behind an upgrade to a newer version
release_item : String → Action → TransactionItem
release_item release action = record {
  item = rpm (package_of "foo" "1" release);
  repoid = codes "base";
  action = action;
}

release_upgrade_lost :
    get_items (
      record (transaction 1) {
        items =
            release_item "1" upgraded
            ∷ release_item "2" upgrade
            ∷ release_item "2" upgraded
            ∷ release_item "3" upgrade
            ∷ [];
      }
      ∷ [])
    ≡ ok (release_item "3" reinstall ∷ [])
unfolding runs release_item
release_upgrade_lost = refl

-- a removal and an installation of a newer version leave no old package
old_package_lost :
    merge_items [] (item_of "foo" "1" remove ∷ item_of "foo" "2" install ∷ [])
    ≡ ok ((foo, record { first = item_of "foo" "2" upgrade; second = none }) ∷ [])
unfolding runs
old_package_lost = refl

-- the newer epoch is on the left
epoch_ignored :
    lower (record (package_of "foo" "1.0" "1") { epoch = 1 }) (package_of "foo" "2.0" "1")
    ≡ some true
unfolding runs
epoch_ignored = refl

letters_throw :
    get_items (
      record (transaction 1) { items = item_of "foo" "1" remove ∷ item_of "foo" "rc1" install ∷ [] }
      ∷ [])
    ≡ throws
unfolding runs
letters_throw = refl
