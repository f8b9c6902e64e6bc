-- ===== src/Swdb/Packages.antt =====
-- dnf-4/libdnf/transaction/RPMItem.cpp, TransactionItem.cpp and Types.hpp: the items of transactions, the
-- kinds of action and the order of packages. Epochs are not negative.
use libhif.Base.{
  ℕ, ◌+◌, ◌-◌, ◌*◌, ◌^◌, Bool, true, false, ◌&&◌, ◌||◌, Option, none, some, List, [], ◌∷◌, ◌++◌,
  Bytes, ◌==◌, ltb, leb, if◌then◌else◌, is_empty,
}

pub data Action : Type 0 where
  install downgrade downgraded obsolete obsoleted upgrade upgraded remove reinstall reinstalled
        reason_change :
      Action

pub record RpmItem : Type 0 where
  pub name : Bytes
  pub epoch : ℕ
  pub version : Bytes
  pub release : Bytes
  pub arch : Bytes

-- what an ItemPtr points to, by its ItemType
pub data Item : Type 0 where
  unknown : Item
  rpm : RpmItem → Item
  group environment : Bytes → Item

pub record TransactionItem : Type 0 where
  pub item : Item
  pub repoid : Bytes
  pub action : Action

abbrev pub set_action : TransactionItem → Action → TransactionItem
set_action t action = record t { action = action }

unfoldable pub is_backward_action : Action → Bool
is_backward_action remove = true
is_backward_action downgraded = true
is_backward_action obsoleted = true
is_backward_action upgraded = true
is_backward_action reinstalled = true
is_backward_action _ = false

-- std::stoi with 2 ^ 31 added to its value; `none` is an exception
abbrev is_space : ℕ → Bool
is_space c = c == b' ' || (leb 9 c && leb c 13)

abbrev is_digit : ℕ → Bool
is_digit c = leb b'0' c && leb c b'9'

unfoldable pub skip_spaces : Bytes → Bytes
skip_spaces [] = []
skip_spaces (c ∷ cs) = if is_space c then skip_spaces cs else c ∷ cs

unfoldable pub digits : ℕ → Bytes → ℕ
digits value [] = value
digits value (c ∷ cs) = if is_digit c then digits (value * 10 + (c - b'0')) cs else value

unfoldable pub starts_with_digit : Bytes → Bool
starts_with_digit [] = false
starts_with_digit (c ∷ cs) = is_digit c

abbrev positive : Bytes → Option ℕ
positive cs =
    if starts_with_digit cs && ltb (digits 0 cs) (2 ^ 31) then some (2 ^ 31 + digits 0 cs) else none

abbrev negative : Bytes → Option ℕ
negative cs =
    if starts_with_digit cs && leb (digits 0 cs) (2 ^ 31) then some (2 ^ 31 - digits 0 cs) else none

abbrev signed : Bytes → Option ℕ
signed [] = none
signed (c ∷ cs) =
    if c == b'-' then negative cs else if c == b'+' then positive cs else positive (c ∷ cs)

unfoldable pub stoi : Bytes → Option ℕ
stoi text = signed (skip_spaces text)

-- what std::getline gives, one after another, on the text behind `piece`
unfoldable pub pieces : Bytes → Bytes → List Bytes
pieces piece [] = if is_empty piece then [] else piece ∷ []
pieces piece (c ∷ cs) = if c == b'.' then piece ∷ pieces [] cs else pieces (piece ++ (c ∷ [])) cs

-- the loop of RPMItem::operator<; `none` is an exception of std::stoi
unfoldable pub lower_version : List Bytes → List Bytes → Option Bool
lower_version [] others = some false
lower_version (this ∷ these) [] = some false
lower_version (this ∷ these) (other ∷ others) =
    let rest = lower_version these others in
    elim (stoi this) [
      | none ↦ none
      | some sub_this ↦ elim (stoi other) [
        | none ↦ none
        | some sub_other ↦ if sub_this == sub_other then rest else some (ltb sub_this sub_other)
      ]
    ]

-- RPMItem::operator<
unfoldable pub lower : RpmItem → RpmItem → Option Bool
lower this other =
    if ltb this.epoch other.epoch
    then some true
    else lower_version (pieces [] this.version) (pieces [] other.version)
