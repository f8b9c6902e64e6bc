-- ===== src/Conf/OptionBinds.antt =====
-- libdnf/conf/option_binds.cpp: OptionBinds, options by name. The options that the items point to live in a state `S`.
pub mod Names
mod Tests
use libhif.Base.{Bool, true, false, Option, none, some, List, [], ◌∷◌, ◌++◌, Bytes}
use libhif.Base.Eq.{bytes_equality}
use libhif.Utils.PreserveOrderMap as Map
use libhif.Conf.Option.{Priority}

pub data Error : Type 0 where
  option_not_found option_already_exists : Error

pub data Result {ℓ} (A : Type ℓ) : Type ℓ where
  ok : A → Result A
  err : Error → Result A

module _ {ℓ} (S : Type ℓ) where
  -- the option that an item points to, by what is called on it
  pub record Target : Type ℓ where
    pub priority : S → Priority
    pub set : S → Priority → Bytes → S
    pub value_string : S → Bytes

  pub record Item : Type ℓ where
    pub option : Target
    pub new_str_func : Option (S → Priority → Bytes → S)
    pub get_value_str_func : Option (S → Bytes)
    pub is_append_option : Bool

module _ {ℓ} {S : Type ℓ} where
  pub get_priority : Item S → S → Priority
  get_priority item s = item.option.priority s

  pub new_string : Item S → S → Priority → Bytes → S
  new_string item s priority value = elim item.new_str_func [
    | some f ↦ f s priority value
    | none ↦ item.option.set s priority value
  ]

  pub get_value_string : Item S → S → Bytes
  get_value_string item s = elim item.get_value_str_func [
    | some f ↦ f s
    | none ↦ item.option.value_string s
  ]

  pub get_is_append_option : Item S → Bool
  get_is_append_option item = item.is_append_option

  -- std::map::find
  pub find_item : List (Bytes × Item S) → Bytes → Option (Item S)
  find_item items id = Map.at items id

  pub at : List (Bytes × Item S) → Bytes → Result (Item S)
  at items id = elim (find_item items id) [ none ↦ err option_not_found | some item ↦ ok item ]

  -- both overloads
  pub add : List (Bytes × Item S) → Bytes → Item S → Result (List (Bytes × Item S))
  add items id item = elim (find_item items id) [
    | some old ↦ err option_already_exists
    | none ↦ ok (Map.assign items id item)
  ]
