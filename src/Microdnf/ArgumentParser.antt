-- ===== src/Microdnf/ArgumentParser.antt =====
-- microdnf/argument_parser.cpp: parse() of the arguments, the commands and ArgumentParser. argv is the
-- list of the texts that are left.
pub mod Rounds
pub mod Total
pub mod Counts
pub mod Conflicts
mod Tests
use mathlib.Core.Option
use libhif.Base.{
  ℕ, zero, suc, ◌+◌, ◌-◌, Bool, true, false, not, ◌&&◌, ◌||◌, Option, none, some, List, [], ◌∷◌,
  ◌++◌, Bytes, ◌==◌, ltb, leb, if◌then◌else◌, length, take, drop, get_elem?, get_or, is_empty,
  find_if, bytes_eq,
}
use libhif.Microdnf.Arguments.{
  Actions, Argument, Command, Error, NamedArg, Nargs, PositionalArg, Program, Result, State, act,
  check_conflict, command, conflict, conflicting, count_up, err, exactly, hook_error, named,
  not_enough_arguments, not_enough_parameters, ok, positional, same_argument, undefined,
  unexpected_argument, unlimited, unlimited_but_one, ◌>>=◌,
}

-- What a round does: it takes texts and gives `used_values`, `short_option_idx` and the state behind
-- it, or it goes to a sub-command.
pub data Move (S : Type 0) : Type 0 where
  forward : ℕ → ℕ → ℕ → State S → Move S
  descend : ℕ → State S → Move S

-- the loop behind a round
abbrev pub proceed :
    {S : Type 0}
    → Result (Move S)
    → (ℕ → ℕ → ℕ → State S → Option (Result (State S)))
    → (ℕ → State S → Option (Result (State S)))
    → Option (Result (State S))
proceed (err e) on_forward on_descend = some (err e)
proceed undefined on_forward on_descend = some undefined
proceed (ok (forward consumed used_values idx s)) on_forward on_descend =
    on_forward consumed used_values idx s
proceed (ok (descend k s)) on_forward on_descend = on_descend k s

-- the bytes of the texts, with one more for each text
pub size : List Bytes → ℕ
size [] = 0
size (arg ∷ argv) = suc (length arg) + size argv

module _ {S : Type 0} (program : Program) (actions : Actions S) where
  -- the number of texts that a positional argument takes, of those that are left
  abbrev pub count_of : Nargs → ℕ → ℕ
  count_of (exactly zero) argc = 1
  count_of (exactly (suc n)) argc = suc n
  count_of unlimited argc = argc
  count_of unlimited_but_one argc = argc

  abbrev pub too_few : Nargs → ℕ → Bool
  too_few (exactly n) argc = ltb argc n
  too_few _ argc = false

  pub store_values : ℕ → ℕ → List Bytes → State S → Result (State S)
  store_values p i [] s = ok s
  store_values p i (value ∷ argv) s =
      act (actions.set_positional p i value) s >>= λ s'. store_values p (i + 1) argv s'

  pub parse_positional : ℕ → List Bytes → State S → Result (State S × ℕ)
  parse_positional p argv s =
      let arg = program.positional_arg p in
      let count = count_of arg.nargs (length argv) in
      check_conflict (positional p) arg.conflict_args s >>= λ s1.
      (if too_few arg.nargs (length argv) then err not_enough_parameters else ok s1) >>= λ s2.
      (if arg.store_value then store_values p 0 (take count argv) s2 else ok s2) >>= λ s3.
      act (actions.positional_hook p argv) (count_up (positional p) s3) >>= λ s4. ok (s4, count)

  -- the value of a named argument, and how many texts it takes
  pub long_value : NamedArg → Bytes → List Bytes → Result (Bytes × ℕ)
  long_value arg option argv = elim (find_if (λ c. c == b'=') option 0) [
    | some assign ↦
        if arg.has_arg then ok (drop (assign + 1) option, 1) else err unexpected_argument
    | none ↦
        if arg.has_arg
        then elim (get_elem? argv 1) [ none ↦ err not_enough_arguments | some v ↦ ok (v, 2) ]
        else ok (arg.const_val, 1)
  ]

  pub short_value : NamedArg → Bytes → List Bytes → Result (Bytes × ℕ)
  short_value arg option argv =
      if arg.has_arg
      then if ltb 1 (length option)
        then ok (drop 1 option, 1)
        else elim (get_elem? argv 1) [ none ↦ err not_enough_arguments | some v ↦ ok (v, 2) ]
      else ok (arg.const_val, if ltb 1 (length option) then 0 else 1)

  -- what parse_long and parse_short share
  pub parse_named : ℕ → Bytes → Result (Bytes × ℕ) → State S → Result (State S × ℕ)
  parse_named n option parsed s =
      let arg = program.named_arg n in
      check_conflict (named n) arg.conflict_args s >>= λ s1. parsed >>= λ vc.
      (if arg.store_value
        then elim arg.value [ none ↦ ok s1 | some o ↦ act (actions.set_named o vc.0) s1 ]
        else ok s1)
      >>= λ s2.
          act (actions.named_hook n option vc.0) (count_up (named n) s2) >>= λ s3. ok (s3, vc.1)

  pub parse_long : ℕ → Bytes → List Bytes → State S → Result (State S × ℕ)
  parse_long n option argv s = parse_named n option (long_value (program.named_arg n) option argv) s

  pub parse_short : ℕ → Bytes → List Bytes → State S → Result (State S × ℕ)
  parse_short n option argv s =
      parse_named n option (short_value (program.named_arg n) option argv) s

  -- the first named argument with the long name of a text behind "--"
  pub find_long : List ℕ → Bytes → Option ℕ
  find_long [] tmp = none
  find_long (n ∷ named_args) tmp =
      let long_name = (program.named_arg n).long_name in
      let name = elim (find_if (λ c. c == b'=') tmp 0) as (λ _. Bytes) [
        | some assign ↦ take assign tmp
        | none ↦ tmp
      ] in
      if not (is_empty long_name) && bytes_eq long_name name
      then some n
      else find_long named_args tmp

  -- the byte of a C string at a position, if the position is inside or at its end
  abbrev pub char_at : Bytes → ℕ → Option ℕ
  char_at tmp i = if leb i (length tmp) then some (get_or tmp i 0) else none

  pub find_short : List ℕ → Bytes → ℕ → Result (Option ℕ)
  find_short [] tmp idx = ok none
  find_short (n ∷ named_args) tmp idx =
      let short_name = (program.named_arg n).short_name in
      if short_name == 0 then find_short named_args tmp idx else elim (char_at tmp idx) [
        | none ↦ undefined
        | some c ↦ if short_name == c then ok (some n) else find_short named_args tmp idx
      ]

  pub find_command : List ℕ → Bytes → Option ℕ
  find_command [] arg = none
  find_command (k ∷ cmds) arg =
      if bytes_eq (program.command_of k).name arg then some k else find_command cmds arg

  -- the end of Command::parse
  pub finish : ℕ → Bytes → List Bytes → State S → Result (State S)
  finish cmd option argv s = act (actions.command_hook cmd option argv) (count_up (command cmd) s)

  -- the search for a named argument in one round; without a move the text is not used
  pub parse_long_text : Command → List Bytes → Bytes → ℕ → ℕ → State S → Result (Option (Move S))
  parse_long_text this argv tmp used_values short_option_idx s =
      elim (find_long this.named_args tmp) [
        | none ↦ ok none
        | some n ↦ parse_long n tmp argv s >>= λ sc.
            ok (some (forward sc.1 used_values short_option_idx sc.0))
      ]

  pub parse_short_text : Command → List Bytes → Bytes → ℕ → ℕ → State S → Result (Option (Move S))
  parse_short_text this argv tmp used_values short_option_idx s =
      find_short this.named_args tmp short_option_idx >>= λ found. elim found [
        | none ↦ ok none
        | some n ↦ parse_short n (drop short_option_idx tmp) argv s >>= λ sc. ok (
            some (
              if ltb 0 sc.1
              then forward sc.1 used_values 0 sc.0
              else forward 0 used_values (short_option_idx + 1) sc.0))
      ]

  pub parse_named_text : Command → Bytes → List Bytes → ℕ → ℕ → State S → Result (Option (Move S))
  parse_named_text this arg rest used_values short_option_idx s =
      if get_or arg 0 0 == b'-'
      then if get_or arg 1 0 == b'-'
        then parse_long_text this (arg ∷ rest) (drop 2 arg) used_values short_option_idx s
        else parse_short_text this (arg ∷ rest) (drop 1 arg) used_values short_option_idx s
      else ok none

  -- a text that is no named argument: a sub-command, a positional argument or nothing. `used` stays
  -- false behind a positional argument, whose texts and one more are passed over.
  pub parse_other : ℕ → Bytes → List Bytes → ℕ → ℕ → State S → Result (Move S)
  parse_other cmd arg rest used_values short_option_idx s =
      let this = program.command_of cmd in
      elim (find_command this.cmds arg) [
        | some k ↦ check_conflict (command cmd) this.conflict_args s >>= λ s'. ok (descend k s')
        | none ↦ elim (get_elem? this.pos_args used_values) [
          | some p ↦ parse_positional p (arg ∷ rest) s >>= λ sc.
              ok (forward (sc.1 + 1) (used_values + 1) short_option_idx sc.0)
          | none ↦ ok (forward 1 used_values short_option_idx s)
        ]
      ]

  -- one round of the loop of Command::parse, at a text
  pub round : ℕ → Bytes → List Bytes → ℕ → ℕ → State S → Result (Move S)
  round cmd arg rest used_values short_option_idx s =
      parse_named_text (program.command_of cmd) arg rest used_values short_option_idx s >>= λ moved.
      elim moved [
        | some move ↦ ok move
        | none ↦ parse_other cmd arg rest used_values short_option_idx s
      ]

  -- the loop of Command::parse from the texts that are left; `none` means that the fuel ran out.
  -- A sub-command gets the texts from its name on, and the loop of its parent ends behind it.
  pub loop : ℕ → ℕ → Bytes → List Bytes → List Bytes → ℕ → ℕ → State S → Option (Result (State S))
  loop zero cmd option argv left used_values short_option_idx s = none
  loop (suc fuel) cmd option argv [] used_values short_option_idx s =
      some (finish cmd option argv s)
  loop (suc fuel) cmd option argv (arg ∷ rest) used_values short_option_idx s =
      proceed (round cmd arg rest used_values short_option_idx s)
        (λ consumed used_values' idx s'.
          loop fuel cmd option argv (drop consumed (arg ∷ rest)) used_values' idx s')
        (λ k s'.
          Option.map (λ r. r >>= finish cmd option argv) (loop fuel k arg (arg ∷ rest) rest 0 0 s'))

  -- ArgumentParser::parse() of a root command; argv[0] is the program's name
  unfoldable pub parse : ℕ → Bytes → List Bytes → State S → Option (Result (State S))
  parse root_command name argv s = loop (1 + size argv) root_command name (name ∷ argv) argv 0 0 s
