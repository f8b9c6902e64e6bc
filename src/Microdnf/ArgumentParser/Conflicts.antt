-- ===== src/Microdnf/ArgumentParser/Conflicts.antt =====
-- Command::parse never accepts two arguments that exclude each other.
use mathlib.Core.Option
use mathlib.Core.Path.{subst}
use libhif.Base.{
  ℕ, zero, suc, ◌+◌, ◌<◌, true, false, Option, none, some, List, [], ◌∷◌, ◌≡◌, ◌≢◌, inl, inr, refl,
  sym, arith, Bytes, if◌then◌else◌, ltb, length, drop, take, get_elem?, Option-cases,
}
use libhif.Microdnf.Arguments.{
  Argument, named, positional, command, Program, Command, Result, ok, err, ◌>>=◌, Actions, State,
  count_up, act, Nargs, not_enough_parameters,
}
use libhif.Microdnf.ArgumentParser.{
  Move, forward, descend, count_of, too_few, store_values, parse_positional, parse_named,
  parse_long, parse_short, find_long, find_command, parse_long_text, parse_short_text,
  parse_named_text, parse_other, round, finish, size, loop, parse,
}
use libhif.Microdnf.ArgumentParser.Rounds.{
  OnOk, OnOk->>=, OnOk-Unit, OnOk-map, OnOk-ok, OnOk-option, OnOk-option_on, on_proceed,
}
use libhif.Microdnf.ArgumentParser.Counts.{
  conflict_args_of, is_command, listed, Compatible, Clear, check_Clear, act_keeps, counted,
  command_counted,
}

module _ {S : Type 0} (program : Program) (actions : Actions S) where
  abbrev Fits : State S → Type 0
  Fits s = Compatible program s.parse_count

  -- the same parse counts
  abbrev Same : State S → State S → Type 0
  Same s t = t.parse_count ≡ s.parse_count

  Same-Fits : (s t : State S) → Same s t → Fits s → Fits t
  Same-Fits s t e fits = rw e fits

  abbrev FitsFirst : State S × ℕ → Type 0
  FitsFirst (s, n) = Fits s

  abbrev FitsAfter : Move S → Type 0
  FitsAfter (forward consumed used_values idx s) = Fits s
  FitsAfter (descend k s) = Fits s

  abbrev FitsMoved : Option (Move S) → Type 0
  FitsMoved none = Unit
  FitsMoved (some move) = FitsAfter move

  -- What parse_positional and the two of a named argument do behind the check: actions with one count.
  parsed_Fits :
      (arg : Argument) (s : State S) (before : Result (State S)) (hook : S → Result S) (n : ℕ)
      → Fits s
      → Clear arg (conflict_args_of program arg) s.parse_count
      → OnOk (Same s) before
      → OnOk FitsFirst (before >>= λ s2. act hook (count_up arg s2) >>= λ s3. ok (s3, n))
  parsed_Fits arg s before hook n fits clear same =
      OnOk->>= (Same s) FitsFirst before _ same (λ s2 e.
        OnOk->>= (Same (count_up arg s2)) FitsFirst (act hook (count_up arg s2)) _
          (act_keeps hook _)
          (λ s3 e'.
            OnOk-ok FitsFirst (s3, n)
              (Same-Fits (count_up arg s2) s3 e'
                (counted program arg s2 (Same-Fits s s2 e fits) (rw e clear)))))

  store_Same :
      (n : ℕ) (value : Bytes) (s : State S)
      → OnOk (Same s) (
          if (program.named_arg n).store_value
          then elim (program.named_arg n).value [
            | none ↦ ok s
            | some o ↦ act (actions.set_named o value) s
          ]
          else ok s)
  unfolding OnOk
  store_Same n value s = elim (Option-cases (program.named_arg n).value) [
    | inl e ↦ ground (arith, e)
    | inr (o, e) ↦ ground (arith, e, act_keeps (actions.set_named o value) s)
  ]

  parse_named-Fits :
      (n : ℕ) (option : Bytes) (parsed : Result (Bytes × ℕ)) (s : State S)
      → Fits s
      → OnOk FitsFirst (parse_named program actions n option parsed s)
  unfolding parse_named conflict_args_of
  parse_named-Fits n option parsed s fits =
      let arg = program.named_arg n in
      OnOk->>= (λ s1. Fits s1 × Clear (named n) arg.conflict_args s1.parse_count) FitsFirst _ _
        (check_Clear Fits (named n) arg.conflict_args s fits)
        (λ s1 (fits1, clear).
          OnOk->>= (λ vc. Unit) FitsFirst parsed _ (OnOk-Unit _)
            (λ vc _.
              parsed_Fits (named n) s1 _ (actions.named_hook n option vc.0) vc.1 fits1 clear
                (store_Same n vc.0 s1)))

  store_values-Same :
      (p i : ℕ) (argv : List Bytes) (s : State S)
      → OnOk (Same s) (store_values program actions p i argv s)
  unfolding store_values
  store_values-Same p i [] s = OnOk-ok (Same s) s refl
  store_values-Same p i (value ∷ argv) s =
      OnOk->>= (Same s) (Same s) (act (actions.set_positional p i value) s) _
        (act_keeps (actions.set_positional p i value) s)
        (λ s1 e. rw (sym e) (store_values-Same p (i + 1) argv s1))

  values_Same :
      (p : ℕ) (argv : List Bytes) (s : State S)
      → OnOk (Same s) (
          if (program.positional_arg p).store_value
          then store_values program actions p 0 argv s
          else ok s)
  values_Same p argv s = ground (arith, store_values-Same p 0 argv s, OnOk-ok (Same s) s refl)

  enough_Checked :
      (P : State S → Type 0) (nargs : Nargs) (argc : ℕ) (s : State S)
      → P s
      → OnOk P (if too_few program actions nargs argc then err not_enough_parameters else ok s)
  unfolding OnOk
  enough_Checked P nargs argc s p = ground (arith, p)

  parse_positional-Fits :
      (p : ℕ) (argv : List Bytes) (s : State S)
      → Fits s
      → OnOk FitsFirst (parse_positional program actions p argv s)
  unfolding parse_positional conflict_args_of
  parse_positional-Fits p argv s fits =
      let arg = program.positional_arg p in
      let count = count_of program actions arg.nargs (length argv) in
      let Checked : State S → Type 0 =
        λ s1. Fits s1 × Clear (positional p) arg.conflict_args s1.parse_count in
      OnOk->>= Checked FitsFirst _ _ (check_Clear Fits (positional p) arg.conflict_args s fits)
        (λ s1 checked.
          OnOk->>= Checked FitsFirst _ _ (enough_Checked Checked arg.nargs (length argv) s1 checked)
            (λ s2 (fits2, clear).
              parsed_Fits (positional p) s2 _ (actions.positional_hook p argv) count fits2 clear
                (values_Same p (take count argv) s2)))

  move_Fits :
      (r : Result (State S × ℕ)) (move : State S × ℕ → Move S)
      → OnOk FitsFirst r
      → ((sc : State S × ℕ) → FitsFirst sc → FitsAfter (move sc))
      → OnOk FitsMoved (r >>= λ sc. ok (some (move sc)))
  move_Fits r move fits after =
      OnOk->>= FitsFirst FitsMoved r _ fits
        (λ sc fits'. OnOk-ok FitsMoved (some (move sc)) (after sc fits'))

  parse_long_text-Fits :
      (this : Command) (argv : List Bytes) (tmp : Bytes) (used_values idx : ℕ) (s : State S)
      → Fits s
      → OnOk FitsMoved (parse_long_text program actions this argv tmp used_values idx s)
  unfolding parse_long_text parse_long
  parse_long_text-Fits this argv tmp used_values idx s fits =
      OnOk-option FitsMoved (find_long program actions this.named_args tmp) _ _
        (OnOk-ok FitsMoved none tt)
        (λ n.
          move_Fits _ (λ sc. forward sc.1 used_values idx sc.0) (parse_named-Fits n tmp _ s fits)
            (λ sc fits'. fits'))

  parse_short_text-Fits :
      (this : Command) (argv : List Bytes) (tmp : Bytes) (used_values idx : ℕ) (s : State S)
      → Fits s
      → OnOk FitsMoved (parse_short_text program actions this argv tmp used_values idx s)
  unfolding parse_short_text parse_short
  parse_short_text-Fits this argv tmp used_values idx s fits =
      OnOk->>= {A = Option ℕ} (λ found. Unit) FitsMoved _ _ (OnOk-Unit _)
        (λ found _. OnOk-option FitsMoved found _ _ (OnOk-ok FitsMoved none tt) (λ n.
          move_Fits _
            (λ sc.
              if ltb 0 sc.1
              then forward sc.1 used_values 0 sc.0
              else forward 0 used_values (idx + 1) sc.0)
            (parse_named-Fits n (drop idx tmp) _ s fits) (λ sc fits'. ground (arith, fits'))))

  parse_named_text-Fits :
      (this : Command) (arg : Bytes) (rest : List Bytes) (used_values idx : ℕ) (s : State S)
      → Fits s
      → OnOk FitsMoved (parse_named_text program actions this arg rest used_values idx s)
  unfolding parse_named_text
  parse_named_text-Fits this arg rest used_values idx s fits = ground (
    arith,
    OnOk-ok FitsMoved none tt,
    parse_long_text-Fits this (arg ∷ rest) (drop 2 arg) used_values idx s fits,
    parse_short_text-Fits this (arg ∷ rest) (drop 1 arg) used_values idx s fits,
  )

  parse_other-Fits :
      (cmd : ℕ) (arg : Bytes) (rest : List Bytes) (used_values idx : ℕ) (s : State S)
      → Fits s
      → OnOk FitsAfter (parse_other program actions cmd arg rest used_values idx s)
  unfolding parse_other
  parse_other-Fits cmd arg rest used_values idx s fits =
      let this = program.command_of cmd in
      OnOk-option FitsAfter (find_command program actions this.cmds arg) _ _
        (OnOk-option FitsAfter (get_elem? this.pos_args used_values) _ _ (OnOk-ok FitsAfter _ fits)
          (λ p.
            OnOk->>= FitsFirst FitsAfter _ _ (parse_positional-Fits p (arg ∷ rest) s fits)
              (λ sc fits'. OnOk-ok FitsAfter _ fits')))
        (λ k.
          OnOk->>= (λ s1. Fits s1 × Clear (command cmd) this.conflict_args s1.parse_count) FitsAfter
            _ _ (check_Clear Fits (command cmd) this.conflict_args s fits)
            (λ s1 (fits1, clear). OnOk-ok FitsAfter _ fits1))

  round-Fits :
      (cmd : ℕ) (arg : Bytes) (rest : List Bytes) (used_values idx : ℕ) (s : State S)
      → Fits s
      → OnOk FitsAfter (round program actions cmd arg rest used_values idx s)
  unfolding round
  round-Fits cmd arg rest used_values idx s fits =
      OnOk->>= FitsMoved FitsAfter _ _
        (parse_named_text-Fits (program.command_of cmd) arg rest used_values idx s fits)
        (λ moved m.
          OnOk-option_on FitsMoved FitsAfter moved _ _ m
            (λ _. parse_other-Fits cmd arg rest used_values idx s fits)
            (λ move m'. OnOk-ok FitsAfter move m'))

  finish-Fits :
      (cmd : ℕ) (option : Bytes) (argv : List Bytes) (s : State S)
      → Fits s
      → OnOk Fits (finish program actions cmd option argv s)
  unfolding finish
  finish-Fits cmd option argv s fits =
      let counted_state = count_up (command cmd) s in
      OnOk-map (Same counted_state) Fits _ (act_keeps (actions.command_hook cmd option argv) _)
        (λ s' e. Same-Fits counted_state s' e (command_counted program cmd s fits))

  -- of the state that the loop returns, when it returns one
  abbrev FitsEnd : Option (Result (State S)) → Type 0
  FitsEnd none = Unit
  FitsEnd (some r) = OnOk Fits r

  finish-FitsEnd :
      (cmd : ℕ) (option : Bytes) (argv : List Bytes) (o : Option (Result (State S)))
      → FitsEnd o
      → FitsEnd (Option.map (λ r. r >>= finish program actions cmd option argv) o)
  finish-FitsEnd cmd option argv none fits = tt
  finish-FitsEnd cmd option argv (some r) fits =
      OnOk->>= Fits Fits r _ fits (finish-Fits cmd option argv)

  loop-Fits :
      (fuel cmd : ℕ) (option : Bytes) (argv left : List Bytes) (used_values idx : ℕ) (s : State S)
      → Fits s
      → FitsEnd (loop program actions fuel cmd option argv left used_values idx s)
  unfolding loop OnOk
  loop-Fits zero cmd option argv left used_values idx s fits = tt
  loop-Fits (suc fuel) cmd option argv [] used_values idx s fits =
      finish-Fits cmd option argv s fits
  loop-Fits (suc fuel) cmd option argv (arg ∷ rest) used_values idx s fits =
      on_proceed FitsAfter FitsEnd (round program actions cmd arg rest used_values idx s) _ _
        (round-Fits cmd arg rest used_values idx s fits) (λ e. tt) tt
        (λ consumed used_values' idx' s' fits'.
          loop-Fits fuel cmd option argv (drop consumed (arg ∷ rest)) used_values' idx' s' fits')
        (λ k s' fits'.
          finish-FitsEnd cmd option argv _ (loop-Fits fuel k arg (arg ∷ rest) rest 0 0 s' fits'))

  -- Where no argument was parsed before and parse() returns without an exception, two different named
  -- or positional arguments that list each other as conflicting are not both parsed: if one was, the
  -- count of the other is 0.
  pub parse-conflicts :
      (root_command : ℕ) (name : Bytes) (argv : List Bytes) (s s' : State S)
      → ((arg : Argument) → s.parse_count arg ≡ 0)
      → parse program actions root_command name argv s ≡ some (ok s')
      → (a b : Argument) → a ≢ b
      → is_command a ≡ false
      → is_command b ≡ false
      → listed b (conflict_args_of program a) ≡ true
      → listed a (conflict_args_of program b) ≡ true
      → 0 < s'.parse_count a
      → s'.parse_count b ≡ 0
  unfolding parse Compatible OnOk
  parse-conflicts root_command name argv s s' fresh e =
      let end =
        loop-Fits (1 + size argv) root_command name (name ∷ argv) argv 0 0 s
          (λ a b apart a_plain b_plain ab ba parsed. fresh b) in
      subst FitsEnd e end
