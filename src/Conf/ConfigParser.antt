-- ===== src/Conf/ConfigParser.antt =====
-- libdnf/conf/config_parser.cpp and include/libdnf/conf/config_parser.hpp: ConfigParser, the editable
-- contents of a configuration file. `raw_items` is a std::map of which the code uses find, [],
-- erase and empty only, so it is a map like the others here. Streams and files are byte strings.
pub mod Values
pub mod RawItems
pub mod Writes
pub mod Read
mod Tests
use mathlib.Core.Option
use libhif.Base.{
  ℕ, zero, suc, ◌+◌, Bool, true, false, not, ◌&&◌, ◌||◌, Option, none, some, List, [], ◌∷◌, ◌++◌,
  Bytes, codes, ◌==◌, if◌then◌else◌, length, take, get_or, is_empty, find_if,
}
use libhif.Conf.Decimal.{to_string}
use libhif.Conf.Substitute.{substitute}
use libhif.Base.Eq.{bytes_equality}
use libhif.Utils.PreserveOrderMap.{find, erase, at, assign}
use libhif.Utils.IniParser.{
  ItemType, comment_line, key_val, empty_line, end_of_input, IniParser, is_blank,
}
use libhif.Utils.IniParser as Ini

pub data Error : Type 0 where
  section_not_found option_not_found : Error
  syntax : Ini.Error → ℕ → Error

pub data Result {ℓ} (A : Type ℓ) : Type ℓ where
  ok : A → Result A
  err : Error → Result A

abbrev pub KeyValMap : Type 0
KeyValMap = List (Bytes × Bytes)

pub record ConfigParser : Type 0 where
  pub contents : List (Bytes × KeyValMap)
  pub item_number : ℕ
  pub header : Bytes
  pub raw_items : List (Bytes × Bytes)

abbrev pub new : ConfigParser
new = record { contents = []; item_number = 0; header = []; raw_items = [] }

-- section + ']' + key
abbrev pub raw_name : Bytes → Bytes → Bytes
raw_name section key = section ++ (b']' ∷ key)

-- find() != end()
abbrev found {ℓ} : {A : Type ℓ} → Option A → Bool
found none = false
found (some _) = true

pub has_section : ConfigParser → Bytes → Bool
has_section c section = found (find c.contents section)

pub has_option : ConfigParser → Bytes → Bytes → Bool
has_option c section key = elim (at c.contents section) [
  | none ↦ false
  | some key_vals ↦ found (find key_vals key)
]

pub add_section : ConfigParser → Bytes → Bytes → ConfigParser × Bool
add_section c section raw_line = if has_section c section then (c, false) else (
  record c {
    raw_items = if is_empty raw_line then c.raw_items else assign c.raw_items section raw_line;
    contents = assign c.contents section [];
  },
  true,
)

-- the overload with a raw item
pub set_raw_value : ConfigParser → Bytes → Bytes → Bytes → Bytes → Result ConfigParser
set_raw_value c section key value raw_item = elim (at c.contents section) [
  | none ↦ err section_not_found
  | some key_vals ↦ ok (record c {
    raw_items =
        if is_empty c.raw_items
        then (erase c.raw_items (raw_name section key)).0
        else assign c.raw_items (raw_name section key) raw_item;
    contents = assign c.contents section (assign key_vals key value);
  })
]

pub create_raw_item : Bytes → Bytes → Bytes
create_raw_item value old_raw_item = elim (find_if (λ c. c == b'=') old_raw_item 0) [
  | none ↦ []
  | some eql_pos ↦ elim (find_if (λ c. not (is_blank c)) old_raw_item (eql_pos + 1)) [
    | none ↦ take (length old_raw_item) old_raw_item ++ (value ++ (b'\n' ∷ []))
    | some value_pos ↦ take value_pos old_raw_item ++ (value ++ (b'\n' ∷ []))
  ]
]

-- the overload without one
pub set_value : ConfigParser → Bytes → Bytes → Bytes → Result ConfigParser
set_value c section key value =
    set_raw_value c section key value
      (create_raw_item value (Option.get_or (at c.raw_items (raw_name section key)) []))

pub remove_section : ConfigParser → Bytes → ConfigParser × Bool
remove_section c section =
    let (contents, removed) = erase c.contents section in
    if removed == 0
    then (c, false)
    else (record c { contents = contents; raw_items = (erase c.raw_items section).0 }, true)

pub remove_option : ConfigParser → Bytes → Bytes → ConfigParser × Bool
remove_option c section key = elim (at c.contents section) [
  | none ↦ (c, false)
  | some key_vals ↦
      let (left, removed) = erase key_vals key in
      if removed == 0 then (c, false) else (
        record c {
          contents = assign c.contents section left;
          raw_items = (erase c.raw_items (raw_name section key)).0;
        },
        true,
      )
]

pub add_comment_line : ConfigParser → Bytes → Bytes → Result ConfigParser
add_comment_line c section comment = elim (at c.contents section) [
  | none ↦ err section_not_found
  | some key_vals ↦ ok (record c {
    item_number = c.item_number + 1;
    contents =
        assign c.contents section (assign key_vals (b'#' ∷ to_string (c.item_number + 1)) comment);
  })
]

pub get_value : ConfigParser → Bytes → Bytes → Result Bytes
get_value c section key = elim (at c.contents section) [
  | none ↦ err section_not_found
  | some key_vals ↦ elim (at key_vals key) [ none ↦ err option_not_found | some value ↦ ok value ]
]

-- the value with a space behind every line's end
pub indent : Bytes → Bytes
indent [] = []
indent (chr ∷ value) = if chr == b'\n' then chr ∷ b' ' ∷ indent value else chr ∷ indent value

pub write_key_val : Bytes → List (Bytes × Bytes) → Bytes × Bytes → Bytes
write_key_val section raw_items (key, value) =
    if get_or key 0 0 == b'#' || get_or key 0 0 == b';'
    then value
    else elim (at raw_items (raw_name section key)) [
      | some raw_item ↦ raw_item
      | none ↦ key ++ (b'=' ∷ (indent value ++ (b'\n' ∷ [])))
    ]

pub write_key_vals : Bytes → List (Bytes × Bytes) → KeyValMap → Bytes
write_key_vals section raw_items [] = []
write_key_vals section raw_items (item ∷ key_vals) =
    write_key_val section raw_items item ++ write_key_vals section raw_items key_vals

pub write_section : Bytes → List (Bytes × Bytes) → KeyValMap → Bytes
write_section section raw_items key_vals =
    (elim (at raw_items section) [
      | some raw_item ↦ raw_item
      | none ↦ b'[' ∷ (section ++ (b']' ∷ b'\n' ∷ []))
    ])
    ++ write_key_vals section raw_items key_vals

pub write_sections : List (Bytes × Bytes) → List (Bytes × KeyValMap) → Bytes
write_sections raw_items [] = []
write_sections raw_items (section ∷ sections) =
    write_section section.0 raw_items section.1 ++ write_sections raw_items sections

pub write : ConfigParser → Bytes
write c = c.header ++ write_sections c.raw_items c.contents

-- write() of one section
pub write_one : ConfigParser → Bytes → Result Bytes
write_one c section = elim (at c.contents section) [
  | none ↦ err section_not_found
  | some key_vals ↦ ok (write_section section c.raw_items key_vals)
]

-- the body of the loop of read(), on one item
pub read_item : ConfigParser → ItemType → IniParser → Result ConfigParser
read_item c ItemType.section p = ok (add_section c p.section p.raw_item).0
read_item c key_val p = set_raw_value c p.section p.key p.value p.raw_item
read_item c comment_line p =
    if is_empty p.section
    then ok (record c { header = c.header ++ p.raw_item })
    else add_comment_line c p.section p.raw_item
read_item c empty_line p =
    if is_empty p.section
    then ok (record c { header = c.header ++ p.raw_item })
    else add_comment_line c p.section p.raw_item
read_item c end_of_input p = ok c

-- the `while` loop of read(); `none` means that the fuel ran out. What was read before an exception
-- is not used further.
pub read_loop : ℕ → ConfigParser → IniParser → Option (Result ConfigParser)
read_loop zero c p = none
read_loop (suc fuel) c p = elim (Ini.next p) [
  | none ↦ none
  | some (Ini.err e n) ↦ some (err (syntax e n))
  | some (Ini.ok (end_of_input, q)) ↦ some (ok c)
  | some (Ini.ok (t, q)) ↦ elim (read_item c t q) [
    | err e ↦ some (err e)
    | ok c' ↦ read_loop fuel c' q
  ]
]

-- read() of a stream. Every item but the last uses up a byte.
pub read : ConfigParser → Bytes → Option (Result ConfigParser)
read c input = read_loop (length input + 2) c (Ini.init input)

-- the value with the variables of set_substitutions() replaced
pub get_substituted_value :
    ConfigParser → List (Bytes × Bytes) → Bytes → Bytes → Option (Result Bytes)
get_substituted_value c substitutions section key = elim (get_value c section key) [
  | err e ↦ some (err e)
  | ok value ↦ Option.map ok (substitute value substitutions)
]
