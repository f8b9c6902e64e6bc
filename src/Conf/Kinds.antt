-- ===== src/Conf/Kinds.antt =====
-- libdnf/conf/option_number.cpp, option_string.cpp, option_string_list.cpp and option_enum.cpp: the
-- tests of the option classes. Reading a number from a stream and std::regex_match are parameters.
pub mod Allowed
mod Tests
use libhif.Base.{
  ℕ, Bool, true, false, not, ◌&&◌, ◌||◌, Option, none, some, List, [], ◌∷◌, Bytes, bytes_eq,
  is_empty, if◌then◌else◌,
}
use libhif.Conf.Option.{Kind}
use libhif.Conf.StringList as Words

-- OptionNumber, of a type of numbers with its operator<
abbrev pub number_kind {ℓ} :
    {T : Type ℓ} → (T → T → Bool) → (Bytes → Option T) → (T → Bytes) → T → T → Kind T
number_kind lt from_string to_string min max = record {
  test = λ value. not (lt value min || lt max value);
  from_string = from_string;
  to_string = to_string;
}

-- std::find(...) != end()
pub is_one_of : List Bytes → Bytes → Bool
is_one_of [] value = false
is_one_of (v ∷ enum_vals) value = bytes_eq v value || is_one_of enum_vals value

-- OptionEnum<std::string> without a function of the user
abbrev pub enum_kind : List Bytes → Kind Bytes
enum_kind enum_vals = record {
  test = is_one_of enum_vals;
  from_string = some;
  to_string = λ value. value;
}

-- regex_match takes the pattern, whether case is ignored, and a text.
module _ (regex_match : Bytes → Bool → Bytes → Bool) where
  -- OptionString::test; an empty pattern allows all
  pub test_string : Bytes → Bool → Bytes → Bool
  test_string regex icase value = is_empty regex || regex_match regex icase value

  pub test_strings : Bytes → Bool → List Bytes → Bool
  test_strings regex icase [] = true
  test_strings regex icase (val ∷ value) =
      test_string regex icase val && test_strings regex icase value

  abbrev pub string_kind : Bytes → Bool → Kind Bytes
  string_kind regex icase = record {
    test = test_string regex icase;
    from_string = some;
    to_string = λ value. value;
  }

  abbrev pub string_list_kind : Bytes → Bool → Kind (List Bytes)
  string_list_kind regex icase = record {
    test = test_strings regex icase;
    from_string = Words.from_string;
    to_string = Words.to_string;
  }
