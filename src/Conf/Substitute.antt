-- ===== src/Conf/Substitute.antt =====
-- ConfigParser::substitute of libdnf/conf/config_parser.cpp: $name and ${name} in a text are replaced
-- by the values of the variables. std::isalnum is that of the C locale.
pub mod Laws
mod Tests
use libhif.Base.{
  ℕ, zero, suc, ◌+◌, ◌-◌, Bool, true, false, not, ◌&&◌, ◌||◌, Option, none, some, List, [], ◌∷◌,
  ◌++◌, Bytes, ◌==◌, leb, if◌then◌else◌, length, take, drop, get_or, find_if, substr,
}
use libhif.Base.Eq.{bytes_equality}
use libhif.Utils.PreserveOrderMap.{at}

abbrev between : ℕ → ℕ → ℕ → Bool
between lo hi c = leb lo c && leb c hi

abbrev pub is_word : ℕ → Bool
is_word c = between b'a' b'z' c || between b'A' b'Z' c || between b'0' b'9' c || c == b'_'

-- find_first_of('$', pos)
abbrev pub find_dollar : Bytes → ℕ → Option ℕ
find_dollar text pos = find_if (λ c. c == b'$') text pos

-- the end of the run of word bytes from a position
abbrev pub word_end : Bytes → ℕ → ℕ
word_end text pos = elim (find_if (λ c. not (is_word c)) text pos) [
  | none ↦ length text
  | some it ↦ it
]

-- what one round does: it stops, or goes on with a text and a position to search from
pub data Round : Type 0 where
  break : Round
  search : Bytes → ℕ → Round

-- the part of the loop behind the test for a bracket
pub replace_at : List (Bytes × Bytes) → Bytes → ℕ → Bool → ℕ → Round
replace_at substitutions text start bracket variable =
    let past_variable = word_end text variable in
    if bracket && past_variable == length text
    then break
    else if bracket && not (get_or text past_variable 0 == b'}')
    then search text past_variable
    else elim (at substitutions (substr text variable (past_variable - variable))) [
      | some subst ↦
          search
            (take start text
              ++ (subst ++ drop (if bracket then past_variable + 1 else past_variable) text))
            (start + length subst)
      | none ↦ search text past_variable
    ]

pub round : List (Bytes × Bytes) → Bytes → ℕ → Round
round substitutions text start =
    if leb (length text) (start + 1)
    then break
    else if get_or text (start + 1) 0 == b'{'
    then if leb (length text) (start + 2)
      then break
      else replace_at substitutions text start true (start + 2)
    else replace_at substitutions text start false (start + 1)

-- the `while` loop, on the position of a '$'; `none` means that the fuel ran out
pub loop : ℕ → List (Bytes × Bytes) → Bytes → Option ℕ → Option Bytes
loop zero substitutions text start = none
loop (suc fuel) substitutions text none = some text
loop (suc fuel) substitutions text (some start) = elim (round substitutions text start) [
  | break ↦ some text
  | search text' pos ↦ loop fuel substitutions text' (find_dollar text' pos)
]

-- Each round leaves less text behind the position.
pub substitute : Bytes → List (Bytes × Bytes) → Option Bytes
substitute text substitutions = loop (length text + 2) substitutions text (find_dollar text 0)
