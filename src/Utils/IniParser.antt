-- ===== src/Utils/IniParser.antt =====
-- libdnf/utils/iniparser.cpp and include/libdnf/utils/iniparser.hpp: IniParser. The stream is what
-- is left of the input with its end-of-file flag; opening it is not modelled. An exception ends the
-- run: the state that it leaves behind is not used again.
pub mod Lines
pub mod RawItems
pub mod Values
pub mod KeyValues
pub mod Input
pub mod Names
mod Tests
use mathlib.Core.Option
use libhif.Base.{
  ℕ, zero, suc, ◌+◌, ◌-◌, Bool, true, false, not, ◌&&◌, ◌||◌, Option, none, some, List, [], ◌∷◌,
  ◌++◌, Bytes, ltb, ◌==◌, if◌then◌else◌, length, take, drop, is_empty, bytes_eq, find_if,
  find_last_if, substr, size_sub, get_or,
}

pub data ItemType : Type 0 where
  comment_line section key_val empty_line end_of_input : ItemType

pub data Error : Type 0 where
  missing_section_header missing_bracket empty_section_name text_after_section : Error
  illegal_continuation_line missing_key missing_equal : Error

-- an exception carries the number of its line
pub data Result {ℓ} (A : Type ℓ) : Type ℓ where
  ok : A → Result A
  err : Error → ℕ → Result A

pub record IniParser : Type 0 where
  pub rest : Bytes
  pub eof : Bool
  pub line : Bytes
  pub line_number : ℕ
  pub line_ready : Bool
  pub section : Bytes
  pub key : Bytes
  pub value : Bytes
  pub raw_item : Bytes

-- the constructor, on an open stream
unfoldable pub init : Bytes → IniParser
init input = record {
  rest = input;
  eof = false;
  line = [];
  line_number = 0;
  line_ready = false;
  section = [];
  key = [];
  value = [];
  raw_item = [];
}

abbrev pub delimiter : ℕ
delimiter = b'\n'

abbrev pub is_blank : ℕ → Bool
is_blank c = c == b' ' || c == b'\t'

abbrev pub is_space : ℕ → Bool
is_space c = c == b' ' || c == b'\t' || c == b'\r'

abbrev pub is_comment : ℕ → Bool
is_comment c = c == b'#' || c == b';'

abbrev pub utf8_bom : Bytes
utf8_bom = 0xEF ∷ 0xBB ∷ 0xBF ∷ []

-- std::getline: the bytes up to the delimiter, those behind it, and whether the end was met
unfoldable pub getline : Bytes → Bytes × Bytes × Bool
getline [] = ([], [], true)
getline (c ∷ cs) =
    let (line, rest, eof) = getline cs in
    if c == delimiter then ([], cs, false) else (c ∷ line, rest, eof)

unfoldable pub fetch : IniParser → IniParser
fetch p =
    let (line, rest, eof) = getline p.rest in
    if p.line_ready then p else record p {
      line = line;
      rest = rest;
      eof = eof;
      line_number = p.line_number + 1;
      line_ready = true;
    }

unfoldable pub drop_bom : IniParser → IniParser
drop_bom p =
    if p.line_number == 1 && bytes_eq (take 3 p.line) utf8_bom
    then record p { line = drop 3 p.line }
    else p

-- front() == back() is a quote
abbrev is_quoted : Bytes → Bool
is_quoted v =
    ltb 1 (length v)
    && get_or v 0 0 == get_or v (length v - 1) 0
    && (get_or v 0 0 == b'"' || get_or v 0 0 == b'\'')

abbrev unquote : Bytes → Bytes
unquote v = if is_quoted v then substr v 1 (length v - 2) else v

unfoldable pub trim : Bytes → Bytes
trim value = elim (find_last_if (λ c. not (c == delimiter)) value (length value)) [
  | none ↦ unquote value
  | some end ↦ unquote (take (end + 1) value)
]

abbrev pub trim_value : IniParser → IniParser
trim_value p = record p { value = trim p.value }

-- what the body of the loop does with a line
pub data Outcome : Type 0 where
  again : Bool → IniParser → Outcome
  returns : ItemType → IniParser → Outcome

-- the line as it stands in the input
abbrev pub raw_line : IniParser → Bytes
raw_line p = p.line ++ (if p.eof then [] else delimiter ∷ [])

-- `raw_item = line` and `raw_item += line`, each with `line_ready = false`
abbrev pub consume : IniParser → IniParser
consume p = record p { raw_item = raw_line p; line_ready = false }

abbrev pub consume_more : IniParser → IniParser
consume_more p = record p { raw_item = p.raw_item ++ raw_line p; line_ready = false }

unfoldable pub comment_or_empty : IniParser → Bool → Outcome
comment_or_empty p previous =
    if previous
    then returns key_val (trim_value p)
    else if is_empty p.line
    then if p.eof
      then returns end_of_input p
      else returns empty_line (record p { line_ready = false; raw_item = delimiter ∷ [] })
    else returns comment_line (consume p)

unfoldable pub blank_line : IniParser → Bool → Outcome
blank_line p previous =
    if previous
    then again true (consume_more (record p { value = p.value ++ (delimiter ∷ []) }))
    else returns empty_line (consume p)

-- the loop that looks for text behind a section's bracket
unfoldable pub text_after : Bytes → Bool
text_after [] = false
text_after (c ∷ cs) =
    if is_comment c then false else if not (is_space c) then true else text_after cs

unfoldable pub section_line : IniParser → ℕ → ℕ → Result Outcome
section_line p start end = elim (find_if (λ c. c == b']') p.line start) [
  | none ↦ err missing_bracket p.line_number
  | some end_sect_pos ↦
      if end_sect_pos == start
      then err empty_section_name p.line_number
      else if text_after (substr p.line (end_sect_pos + 1) (end - (end_sect_pos + 1)))
      then err text_after_section p.line_number
      else ok (
          returns ItemType.section
            (consume (record p { section = substr p.line start (end_sect_pos - start) })))
]

unfoldable pub continuation_line : IniParser → Bool → ℕ → ℕ → Result Outcome
continuation_line p previous start end =
    if not previous
    then err illegal_continuation_line p.line_number
    else ok (
        again previous (
          consume_more (record p {
            value = p.value ++ (delimiter ∷ substr p.line start (size_sub end start + 1));
          })))

-- `eql_pos` is not 0, since the line does not begin with '='
abbrev pub key_part : Bytes → ℕ → Bytes
key_part line eql_pos =
    substr line 0 (Option.get_or (find_last_if (λ c. not (is_blank c)) line (eql_pos - 1)) 0 + 1)

abbrev pub value_part : Bytes → ℕ → ℕ → Bytes
value_part line eql_pos end = elim (find_if (λ c. not (is_blank c)) line (eql_pos + 1)) [
  | none ↦ []
  | some valuepos ↦ substr line valuepos (size_sub (end + 1) valuepos)
]

unfoldable pub key_val_line : IniParser → ℕ → Result Outcome
key_val_line p end =
    if get_or p.line 0 0 == b'='
    then err missing_key p.line_number
    else elim (find_if (λ c. c == b'=') p.line 0) [
      | none ↦ err missing_equal p.line_number
      | some eql_pos ↦ ok (
          again true (
            consume
              (record p { key = key_part p.line eql_pos; value = value_part p.line eql_pos end })))
    ]

unfoldable pub text_line : IniParser → Bool → ℕ → ℕ → Result Outcome
text_line p previous start end =
    let first = get_or p.line start 0 in
    if previous && (start == 0 || first == b'[')
    then ok (returns key_val (trim_value p))
    else if first == b'['
    then section_line p (start + 1) end
    else if is_empty p.section
    then err missing_section_header p.line_number
    else if ltb 0 start
    then continuation_line p previous start end
    else key_val_line p end

unfoldable pub body : IniParser → Bool → Result Outcome
body p previous =
    if is_empty p.line || is_comment (get_or p.line 0 0)
    then ok (comment_or_empty p previous)
    else elim (find_if (λ c. not (is_space c)) p.line 0) [
      | none ↦ ok (blank_line p previous)
      | some start ↦
          text_line p previous start
            (Option.get_or (find_last_if (λ c. not (is_space c)) p.line (length p.line)) 0)
    ]

-- the `while` of next(); `none` means that the fuel ran out
unfoldable pub loop : ℕ → IniParser → Bool → Option (Result (ItemType × IniParser))
loop zero p previous = none
loop (suc fuel) p previous =
    if p.line_ready || not p.eof
    then elim (body (drop_bom (fetch p)) previous) [
      | err e n ↦ some (err e n)
      | ok (returns t q) ↦ some (ok (t, q))
      | ok (again previous' q) ↦ loop fuel q previous'
    ]
    else some (ok (if previous then key_val else end_of_input, trim_value p))

-- Each round but the last uses up a line.
unfoldable pub next : IniParser → Option (Result (ItemType × IniParser))
next p = loop (length p.rest + 3) (record p { raw_item = [] }) false
