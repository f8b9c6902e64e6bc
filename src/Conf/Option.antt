-- ===== src/Conf/Option.antt =====
-- include/libdnf/conf/option.hpp, option_child.hpp and the `set` that the option classes share
-- (libdnf/conf/option_number.cpp, option_string.cpp, option_string_list.cpp, option_bool.cpp): a
-- value with the priority of its source, and an option that falls back to a parent. What the classes
-- do with values and texts is the interface Kind.
pub mod Sources
pub mod Inheritance
mod Tests
use libhif.Base.{
  ℕ, Bool, true, false, not, ◌&&◌, Option, none, some, List, [], ◌∷◌, Bytes, ◌==◌, leb,
  if◌then◌else◌,
}

pub data Priority : Type 0 where
  empty default main_config automatic_config repo_config plugin_default plugin_config : Priority
  dropin_config command_line runtime : Priority

abbrev pub number : Priority → ℕ
number empty = 0
number default = 10
number main_config = 20
number automatic_config = 30
number repo_config = 40
number plugin_default = 50
number plugin_config = 60
number dropin_config = 65
number command_line = 70
number runtime = 80

-- p >= q
abbrev pub at_least : Priority → Priority → Bool
at_least p q = leb (number q) (number p)

abbrev pub is_empty : Priority → Bool
is_empty p = number p == 0

-- the members of a class of options: `test` and `from_string`, which say no by an exception
pub record Kind {ℓ} (T : Type ℓ) : Type ℓ where
  pub test : T → Bool
  pub from_string : Bytes → Option T
  pub to_string : T → Bytes

-- an option with its value
pub record Setting {ℓ} (T : Type ℓ) : Type ℓ where
  pub default_value : T
  pub value : T
  pub priority : Priority

pub data Error : Type 0 where
  not_allowed_value invalid_value : Error

pub data Result {ℓ} (A : Type ℓ) : Type ℓ where
  ok : A → Result A
  err : Error → Result A

module _ {ℓ} {T : Type ℓ} (k : Kind T) where
  -- the constructors test the default value
  pub new : T → Result (Setting T)
  new v =
      if k.test v
      then ok (record { default_value = v; value = v; priority = default })
      else err not_allowed_value

  unfoldable pub set : Setting T → Priority → T → Result (Setting T)
  set s priority value =
      if at_least priority s.priority
      then if k.test value
        then ok (record s { value = value; priority = priority })
        else err not_allowed_value
      else ok s

  -- the overload for a text parses first, whatever the priority
  unfoldable pub set_string : Setting T → Priority → Bytes → Result (Setting T)
  set_string s priority text = elim (k.from_string text) [
    | none ↦ err invalid_value
    | some value ↦ set s priority value
  ]

  -- the state after a call whose exception was caught
  unfoldable pub try_set : Setting T → Priority × T → Setting T
  try_set s (priority, value) = elim (set s priority value) [ ok s' ↦ s' | err e ↦ s ]

  unfoldable pub try_set_all : Setting T → List (Priority × T) → Setting T
  try_set_all s [] = s
  try_set_all s (source ∷ sources) = try_set_all (try_set s source) sources

  -- OptionChild: its own value and priority, EMPTY as long as it has none
  pub record Child : Type ℓ where
    pub own_value : T
    pub own_priority : Priority

  pub child_get_priority : Child → Setting T → Priority
  child_get_priority c parent =
      if not (is_empty c.own_priority) then c.own_priority else parent.priority

  pub child_set : Child → Priority → T → Result Child
  child_set c priority value =
      if at_least priority c.own_priority
      then if k.test value
        then ok (record { own_value = value; own_priority = priority })
        else err not_allowed_value
      else ok c

  -- the overload for a text parses only when the priority suffices
  pub child_set_string : Child → Priority → Bytes → Result Child
  child_set_string c priority text =
      if at_least priority c.own_priority
      then elim (k.from_string text) [
        | none ↦ err invalid_value
        | some value ↦ child_set c priority value
      ]
      else ok c

  -- the specialisation for strings parses first, whatever the priority
  pub string_child_set : Child → Priority → Bytes → Result Child
  string_child_set c priority text = elim (k.from_string text) [
    | none ↦ err invalid_value
    | some value ↦ child_set c priority value
  ]

  pub child_get_value : Child → Setting T → T
  child_get_value c parent = if not (is_empty c.own_priority) then c.own_value else parent.value

  pub child_get_value_string : Child → Setting T → Bytes
  child_get_value_string c parent =
      if not (is_empty c.own_priority) then k.to_string c.own_value else k.to_string parent.value

  pub child_empty : Child → Setting T → Bool
  child_empty c parent = is_empty c.own_priority && is_empty parent.priority
