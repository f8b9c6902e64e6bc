-- ===== src/Microdnf/Arguments.antt =====
-- microdnf/argument_parser.hpp and argument_parser.cpp: the arguments without their help texts, their
-- counts and conflicts, and what parsing gives. Arguments refer to one another by addresses. What the
-- options' `set` and the parse hooks do is given by functions on a state `S`, which may throw; they do
-- not change the counts.
use libhif.Base.{
  ℕ, ◌+◌, Bool, false, not, ◌&&◌, Option, none, some, List, [], ◌∷◌, Bytes, ◌==◌, ltb,
  if◌then◌else◌,
}

-- a pointer to an Argument, with what dynamic_cast sees
pub data Argument : Type 0 where
  named positional command : ℕ → Argument

abbrev pub same_argument : Argument → Argument → Bool
same_argument (named a) (named b) = a == b
same_argument (positional a) (positional b) = a == b
same_argument (command a) (command b) = a == b
same_argument _ _ = false

-- `exactly 0` is OPTIONAL
pub data Nargs : Type 0 where
  exactly : ℕ → Nargs
  unlimited unlimited_but_one : Nargs

-- a short name of 0 and an empty long name are none
pub record NamedArg : Type 0 where
  pub name : Bytes
  pub long_name : Bytes
  pub short_name : ℕ
  pub has_arg : Bool
  pub const_val : Bytes
  pub value : Option ℕ
  pub store_value : Bool
  pub conflict_args : List Argument

pub record PositionalArg : Type 0 where
  pub name : Bytes
  pub nargs : Nargs
  pub store_value : Bool
  pub conflict_args : List Argument

pub record Command : Type 0 where
  pub name : Bytes
  pub cmds : List ℕ
  pub named_args : List ℕ
  pub pos_args : List ℕ
  pub conflict_args : List Argument

-- the arguments by address
pub record Program : Type 0 where
  pub named_arg : ℕ → NamedArg
  pub positional_arg : ℕ → PositionalArg
  pub command_of : ℕ → Command

pub data Error : Type 0 where
  conflict : Argument → Argument → Error
  not_enough_parameters not_enough_arguments unexpected_argument hook_error : Error

-- `undefined` is a read behind the end of a text
pub data Result {ℓ} (A : Type ℓ) : Type ℓ where
  ok : A → Result A
  err : Error → Result A
  undefined : Result A

infixl 5 ◌>>=◌
unfoldable pub ◌>>=◌ {ℓ κ} : {A : Type ℓ} {B : Type κ} → Result A → (A → Result B) → Result B
ok a >>= f = f a
err e >>= f = err e
undefined >>= f = undefined

-- the options' `set` with the priority of the command line, and the hooks
pub record Actions (S : Type 0) : Type 0 where
  pub set_named : ℕ → Bytes → S → Result S
  pub set_positional : ℕ → ℕ → Bytes → S → Result S
  pub named_hook : ℕ → Bytes → Bytes → S → Result S
  pub positional_hook : ℕ → List Bytes → S → Result S
  pub command_hook : ℕ → Bytes → List Bytes → S → Result S

pub record State (S : Type 0) : Type 0 where
  pub parse_count : Argument → ℕ
  pub world : S

module _ {S : Type 0} where
  abbrev pub count_up : Argument → State S → State S
  count_up arg s = record s {
    parse_count = λ a. if same_argument a arg then s.parse_count a + 1 else s.parse_count a;
  }

  -- an action on the world
  abbrev pub act : (S → Result S) → State S → Result (State S)
  act f s = f s.world >>= λ w. ok (record s { world = w })

  -- get_conflict_argument()
  unfoldable pub conflicting : Argument → List Argument → State S → Option Argument
  conflicting this [] s = none
  conflicting this (arg ∷ args) s =
      if not (same_argument arg this) && ltb 0 (s.parse_count arg)
      then some arg
      else conflicting this args s

  abbrev pub check_conflict : Argument → List Argument → State S → Result (State S)
  check_conflict this args s = elim (conflicting this args s) [
    | some arg ↦ err (conflict this arg)
    | none ↦ ok s
  ]

-- reset_parse_count(), of a parser that owns all arguments
pub reset_parse_count : {S : Type 0} → State S → State S
reset_parse_count s = record s { parse_count = λ arg. 0 }
