-- ===== src/Conf/Bool.antt =====
-- libdnf/conf/option_bool.cpp and include/libdnf/conf/option_bool.hpp: what OptionBool does with texts. std::tolower is that of the
-- C locale.
pub mod Accepted
mod Tests
use libhif.Base.{
  ℕ, ◌+◌, Bool, true, false, ◌&&◌, ◌||◌, Option, none, some, List, [], ◌∷◌, Bytes, codes, bytes_eq,
  leb, if◌then◌else◌, map,
}
use libhif.Conf.Option.{Kind}

abbrev pub tolower : ℕ → ℕ
tolower ch = if leb b'A' ch && leb ch b'Z' then ch + 32 else ch

abbrev pub lower : Bytes → Bytes
lower [] = []
lower (ch ∷ value) = tolower ch ∷ lower value

abbrev pub default_true_values : List Bytes
default_true_values = codes "1" ∷ codes "yes" ∷ codes "true" ∷ codes "on" ∷ []

abbrev pub default_false_values : List Bytes
default_false_values = codes "0" ∷ codes "no" ∷ codes "false" ∷ codes "off" ∷ []

-- a loop that looks for a value
pub one_of : List Bytes → Bytes → Bool
one_of [] value = false
one_of (v ∷ values) value = bytes_eq value v || one_of values value

pub from_string : List Bytes → List Bytes → Bytes → Option Bool
from_string true_values false_values value =
    let tmp_value = lower value in
    if one_of false_values tmp_value
    then some false
    else if one_of true_values tmp_value
    then some true
    else none

pub to_string : Bool → Bytes
to_string true = codes "1"
to_string false = codes "0"

-- the class of options, which tests nothing
abbrev pub bool_kind : List Bytes → List Bytes → Kind Bool
bool_kind true_values false_values = record {
  test = λ v. true;
  from_string = from_string true_values false_values;
  to_string = to_string;
}
