-- ===== src/Microdnf/ArgumentParser/Counts.antt =====
-- The groups of arguments that exclude one another, in the parse counts.
use libhif.Base.{
  ℕ, ◌<◌, Bool, true, false, ◌||◌, none, List, [], ◌∷◌, ◌≡◌, ◌≢◌, inl, inr, sym, ap, ◌∙◌, arith,
  ==_iff, Bool-cases, Option-cases,
}
use libhif.Microdnf.Arguments.{
  Argument, named, positional, command, same_argument, Program, Result, ◌>>=◌, State, count_up, act,
  conflicting, check_conflict,
}
use libhif.Microdnf.ArgumentParser.Rounds.{OnOk}

unfoldable pub conflict_args_of : Program → Argument → List Argument
conflict_args_of program (named n) = (program.named_arg n).conflict_args
conflict_args_of program (positional p) = (program.positional_arg p).conflict_args
conflict_args_of program (command k) = (program.command_of k).conflict_args

abbrev pub listed : Argument → List Argument → Bool
listed a [] = false
listed a (arg ∷ args) = same_argument arg a || listed a args

abbrev pub is_command : Argument → Bool
is_command (command k) = true
is_command _ = false

-- Of two arguments that exclude each other, one at most was parsed.
unfoldable pub Compatible : Program → (Argument → ℕ) → Type 0
Compatible program count =
    (a b : Argument)
    → a ≢ b
    → is_command a ≡ false
    → is_command b ≡ false
    → listed b (conflict_args_of program a) ≡ true
    → listed a (conflict_args_of program b) ≡ true
    → 0 < count a
    → count b ≡ 0

same_argument_lem : (a b : Argument) → same_argument a b ≡ true → a ≡ b
same_argument_lem (named a) (named b) e = ap named ((==_iff a b).0 e)
same_argument_lem (positional a) (positional b) e = ap positional ((==_iff a b).0 e)
same_argument_lem (command a) (command b) e = ap command ((==_iff a b).0 e)
same_argument_lem (named a) (positional b) e = ground (arith, e)
same_argument_lem (named a) (command b) e = ground (arith, e)
same_argument_lem (positional a) (named b) e = ground (arith, e)
same_argument_lem (positional a) (command b) e = ground (arith, e)
same_argument_lem (command a) (named b) e = ground (arith, e)
same_argument_lem (command a) (positional b) e = ground (arith, e)

-- nothing that excludes `this` was parsed
abbrev pub Clear : Argument → List Argument → (Argument → ℕ) → Type 0
Clear this args count = (b : Argument) → b ≢ this → listed b args ≡ true → count b ≡ 0

module _ {S : Type 0} where
  conflicting-none :
      (this : Argument) (args : List Argument) (s : State S)
      → conflicting this args s ≡ none
      → Clear this args s.parse_count
  unfolding conflicting
  conflicting-none this [] s e b other m = ground (arith, m)
  conflicting-none this (arg ∷ args) s e b other m = elim (Bool-cases (same_argument arg b)) [
    | inl same ↦
        let at_b = same_argument_lem arg b same in
        elim (Bool-cases (same_argument arg this)) [
          | inl own ↦ absurd (other (sym at_b ∙ same_argument_lem arg this own))
          | inr foreign ↦ ap s.parse_count (sym at_b) ∙ ground (arith, e, foreign)
        ]
    | inr differs ↦
        conflicting-none this args s (ground (arith, e)) b other (ground (arith, m, differs))
  ]

  pub check_Clear :
      (P : State S → Type 0) (this : Argument) (args : List Argument) (s : State S)
      → P s
      → OnOk (λ s1. P s1 × Clear this args s1.parse_count) (check_conflict this args s)
  unfolding OnOk
  check_Clear P this args s p = elim (Option-cases (conflicting this args s)) [
    | inl e ↦ rw (check_conflict, e, OnOk) (p, conflicting-none this args s e)
    | inr (arg, e) ↦ rw (check_conflict, e, OnOk) tt
  ]

  pub act_keeps :
      (f : S → Result S) (s : State S) → OnOk (λ s'. s'.parse_count ≡ s.parse_count) (act f s)
  unfolding OnOk ◌>>=◌
  act_keeps f s = ground arith

  -- one more of `arg`, with nothing parsed that excludes it
  pub counted :
      (program : Program) (arg : Argument) (s : State S)
      → Compatible program s.parse_count
      → Clear arg (conflict_args_of program arg) s.parse_count
      → Compatible program (count_up arg s).parse_count
  unfolding Compatible
  counted program arg s inv clear a b apart a_plain b_plain ab ba parsed =
      elim (Bool-cases (same_argument a arg)) [
        | inl is_a ↦
            let at_a = same_argument_lem a arg is_a in
            let other : b ≢ arg = λ e. apart (at_a ∙ sym e) in
            elim (Bool-cases (same_argument b arg)) [
              | inl is_b ↦ absurd (other (same_argument_lem b arg is_b))
              | inr not_b ↦ ground (
                arith,
                not_b,
                clear b other (ap (λ c. listed b (conflict_args_of program c)) (sym at_a) ∙ ab),
              )
            ]
        | inr not_a ↦ elim (Bool-cases (same_argument b arg)) [
          | inl is_b ↦
              let at_b = same_argument_lem b arg is_b in
              let none_of_a =
                clear a (λ e. apart (e ∙ sym at_b))
                  (ap (λ c. listed a (conflict_args_of program c)) (sym at_b) ∙ ba) in
              ground (arith, parsed, not_a, none_of_a)
          | inr not_b ↦
              ground
                (arith, not_b, inv a b apart a_plain b_plain ab ba (ground (arith, parsed, not_a)))
        ]
      ]

  -- a command more
  pub command_counted :
      (program : Program) (k : ℕ) (s : State S)
      → Compatible program s.parse_count
      → Compatible program (count_up (command k) s).parse_count
  unfolding Compatible
  command_counted program k s inv (named a) (named b) = inv (named a) (named b)
  command_counted program k s inv (named a) (positional b) = inv (named a) (positional b)
  command_counted program k s inv (positional a) (named b) = inv (positional a) (named b)
  command_counted program k s inv (positional a) (positional b) = inv (positional a) (positional b)
  command_counted program k s inv (command a) b = λ apart e. ground (arith, e)
  command_counted program k s inv a (command b) =
      λ apart a_plain b_plain. absurd (ground (arith, b_plain))
