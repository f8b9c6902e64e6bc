-- ===== src/Conf/StringList.antt =====
-- libdnf/conf/option_string_list.cpp: OptionStringList::from_string and to_string, a list of words as
-- text. Positions are those of std::string.
pub mod Loop
pub mod RoundTrip
mod Tests
use mathlib.Core.Option
use libhif.Base.{
  ℕ, zero, suc, ◌+◌, ◌-◌, Bool, true, false, not, ◌&&◌, ◌||◌, Option, none, some, List, [], ◌∷◌,
  ◌++◌, Bytes, ◌==◌, ltb, if◌then◌else◌, length, drop, get_or, find_if, substr,
}

abbrev pub is_delimiter : ℕ → Bool
is_delimiter c = c == b' ' || c == b',' || c == b'\n'

abbrev pub find_not_space : Bytes → ℕ → Option ℕ
find_not_space value pos = find_if (λ c. not (c == b' ')) value pos

-- the second `if` behind a word
pub after_newline : Bytes → ℕ → Option ℕ → Option ℕ
after_newline value end none = none
after_newline value end (some start) =
    if get_or value start 0 == b'\n' && (get_or value end 0 == b' ' || get_or value end 0 == b',')
    then find_not_space value (start + 1)
    else some start

-- where the next word starts, when a delimiter stands at `end`
pub after_comma : Bytes → ℕ → Option ℕ → Option ℕ
after_comma value end none = none
after_comma value end (some start) =
    if get_or value start 0 == b',' && get_or value end 0 == b' '
    then after_newline value start (find_not_space value (start + 1))
    else after_newline value end (some start)

-- one round: a word and the start of the next
pub round : Bytes → ℕ → Bytes × Option ℕ
round value start = elim (find_if is_delimiter value start) [
  | none ↦ (drop start value, none)
  | some end ↦
      (substr value start (end - start), after_comma value end (find_not_space value (end + 1)))
]

-- the `while` loop; `none` means that the fuel ran out
pub loop : ℕ → Bytes → Option ℕ → Option (List Bytes)
loop zero value start = none
loop (suc fuel) value none = some []
loop (suc fuel) value (some start) =
    let (word, next) = round value start in
    let rest = loop fuel value next in
    if ltb start (length value) then Option.map (◌∷◌ word) rest else some []

-- Each round starts further on.
pub from_string : Bytes → Option (List Bytes)
from_string value = loop (length value + 2) value (find_not_space value 0)

-- the words behind the first, each with ", " in front
pub more : List Bytes → Bytes
more [] = []
more (val ∷ value) = b',' ∷ b' ' ∷ (val ++ more value)

pub to_string : List Bytes → Bytes
to_string [] = []
to_string (val ∷ value) = val ++ more value
