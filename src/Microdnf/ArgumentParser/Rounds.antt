-- ===== src/Microdnf/ArgumentParser/Rounds.antt =====
-- Command::parse: what holds of every result that is not an exception, and how the rounds of the
-- loop use up the texts.
use libhif.Base.{
  ℕ, ◌+◌, ◌≤◌, ◌<◌, Option, none, some, List, ◌∷◌, ◌≡◌, ◌⊎◌, inl, arith, Bytes, ltb, if◌then◌else◌,
  length, drop, length-drop, get_elem?,
}
use libhif.Microdnf.Arguments.{
  Argument, Program, NamedArg, Command, Error, Result, ok, err, undefined, ◌>>=◌, Actions, State,
  check_conflict,
}
use libhif.Microdnf.ArgumentParser.{
  find_command, Move, forward, descend, proceed, long_value, short_value, parse_named, parse_long,
  parse_short, find_long, find_short, parse_long_text, parse_short_text, parse_named_text,
  parse_other, round,
}

-- of the value, when there is one
unfoldable pub OnOk : {A : Type 0} → (A → Type 0) → Result A → Type 0
OnOk P (ok a) = P a
OnOk P (err e) = Unit
OnOk P undefined = Unit

pub OnOk->>= :
    {A B : Type 0} (P : A → Type 0) (Q : B → Type 0) (r : Result A) (f : A → Result B)
    → OnOk P r
    → ((a : A) → P a → OnOk Q (f a))
    → OnOk Q (r >>= f)
unfolding OnOk ◌>>=◌
OnOk->>= P Q (ok a) f p step = step a p
OnOk->>= P Q (err e) f p step = tt
OnOk->>= P Q undefined f p step = tt

pub OnOk-map :
    {A : Type 0} (P Q : A → Type 0) (r : Result A) → OnOk P r → ((a : A) → P a → Q a) → OnOk Q r
unfolding OnOk
OnOk-map P Q (ok a) p f = f a p
OnOk-map P Q (err e) p f = tt
OnOk-map P Q undefined p f = tt

-- nothing is asked of the value
pub OnOk-Unit : {A : Type 0} (r : Result A) → OnOk (λ a. Unit) r
unfolding OnOk
OnOk-Unit (ok a) = tt
OnOk-Unit (err e) = tt
OnOk-Unit undefined = tt

pub OnOk-ok : {A : Type 0} (P : A → Type 0) (a : A) → P a → OnOk P (ok a)
unfolding OnOk
OnOk-ok P a p = p

pub OnOk-option :
    {A B : Type 0} (P : B → Type 0) (o : Option A) (n : Result B) (f : A → Result B)
    → OnOk P n
    → ((a : A) → OnOk P (f a))
    → OnOk P (elim o [ none ↦ n | some a ↦ f a ])
OnOk-option P none n f p step = p
OnOk-option P (some a) n f p step = step a

pub OnOk-option_on :
    {A B : Type 0} (R : Option A → Type 0) (P : B → Type 0) (o : Option A) (n : Result B)
    (f : A → Result B)
    → R o
    → (R none → OnOk P n)
    → ((a : A) → R (some a) → OnOk P (f a))
    → OnOk P (elim o [ none ↦ n | some a ↦ f a ])
OnOk-option_on R P none n f r p step = p r
OnOk-option_on R P (some a) n f r p step = step a r

-- a move takes a text, or one byte further in the text `arg`
abbrev pub Progress : {S : Type 0} → Bytes → ℕ → Move S → Type 0
Progress arg idx (forward consumed used_values idx' s) =
    (1 ≤ consumed) ⊎ ((consumed ≡ 0) × (idx' ≡ idx + 1) × (idx < length arg))
Progress arg idx (descend k s) = Unit

module _ {S : Type 0} (program : Program) (actions : Actions S) where
  long_value_takes :
      (arg : NamedArg) (option : Bytes) (argv : List Bytes)
      → OnOk (λ vc. 1 ≤ vc.1) (long_value program actions arg option argv)
  unfolding long_value OnOk
  long_value_takes arg option argv = ground arith

  short_value_takes :
      (arg : NamedArg) (option : Bytes) (argv : List Bytes)
      → OnOk
          (λ vc. (1 ≤ vc.1) ⊎ ((vc.1 ≡ 0) × (1 < length option)))
          (short_value program actions arg option argv)
  unfolding short_value OnOk
  short_value_takes arg option argv = ground arith

  parse_named_takes :
      (P : ℕ → Type 0) (n : ℕ) (option : Bytes) (parsed : Result (Bytes × ℕ)) (s : State S)
      → OnOk (λ vc. P vc.1) parsed
      → OnOk (λ sc. P sc.1) (parse_named program actions n option parsed s)
  unfolding parse_named
  parse_named_takes P n option parsed s takes =
      let arg = program.named_arg n in
      let After : State S × ℕ → Type 0 = λ sc. P sc.1 in
      OnOk->>= (λ s1. Unit) After (check_conflict (Argument.named n) arg.conflict_args s) _
        (OnOk-Unit _)
        (λ s1 _.
          OnOk->>= (λ vc. P vc.1) After parsed _ takes
            (λ vc p.
              OnOk->>= {A = State S} (λ s2. Unit) After _ _ (OnOk-Unit _)
                (λ s2 _.
                  OnOk->>= {A = State S} (λ s3. Unit) After _ _ (OnOk-Unit _)
                    (λ s3 _. OnOk-ok After _ p))))

  -- what is asked of the search for a named argument
  abbrev Moved : Bytes → ℕ → Option (Move S) → Type 0
  Moved arg idx none = Unit
  Moved arg idx (some move) = Progress arg idx move

  parse_long_text_progress :
      (arg tmp : Bytes) (this : Command) (argv : List Bytes) (used_values idx : ℕ) (s : State S)
      → OnOk (Moved arg idx) (parse_long_text program actions this argv tmp used_values idx s)
  unfolding parse_long_text parse_long
  parse_long_text_progress arg tmp this argv used_values idx s =
      OnOk-option (Moved arg idx) (find_long program actions this.named_args tmp) _ _
        (OnOk-ok (Moved arg idx) _ tt)
        (λ n.
          OnOk->>= {A = State S × ℕ} {B = Option (Move S)} (λ sc. 1 ≤ sc.1) (Moved arg idx) _ _
            (parse_named_takes (λ taken. 1 ≤ taken) n tmp _ s
              (long_value_takes (program.named_arg n) tmp argv))
            (λ sc taken. OnOk-ok (Moved arg idx) _ (inl taken)))

  short_moved :
      (arg : Bytes) (used_values idx taken : ℕ) (s : State S)
      → (1 ≤ taken) ⊎ ((taken ≡ 0) × (1 < length (drop idx (drop 1 arg))))
      → Progress arg idx
          (if ltb 0 taken then forward taken used_values 0 s else forward 0 used_values (idx + 1) s)
  short_moved arg used_values idx taken s takes =
      ground (arith, length-drop idx (drop 1 arg), length-drop 1 arg)

  parse_short_text_progress :
      (arg : Bytes) (this : Command) (argv : List Bytes) (used_values idx : ℕ) (s : State S)
      → OnOk
          (Moved arg idx)
          (parse_short_text program actions this argv (drop 1 arg) used_values idx s)
  unfolding parse_short_text parse_short
  parse_short_text_progress arg this argv used_values idx s =
      OnOk->>= {A = Option ℕ} {B = Option (Move S)} (λ found. Unit) (Moved arg idx)
        (find_short program actions this.named_args (drop 1 arg) idx) _ (OnOk-Unit _)
        (λ found _. OnOk-option (Moved arg idx) found _ _ (OnOk-ok (Moved arg idx) _ tt) (λ n.
          let option = drop idx (drop 1 arg) in
          let Takes : ℕ → Type 0 = λ taken. (1 ≤ taken) ⊎ ((taken ≡ 0) × (1 < length option)) in
          OnOk->>= {A = State S × ℕ} {B = Option (Move S)} (λ sc. Takes sc.1) (Moved arg idx) _ _
            (parse_named_takes Takes n option _ s
              (short_value_takes (program.named_arg n) option argv))
            (λ sc taken.
              OnOk-ok (Moved arg idx) _ (short_moved arg used_values idx sc.1 sc.0 taken))))

  parse_named_text_progress :
      (arg : Bytes) (rest : List Bytes) (this : Command) (used_values idx : ℕ) (s : State S)
      → OnOk (Moved arg idx) (parse_named_text program actions this arg rest used_values idx s)
  unfolding parse_named_text
  parse_named_text_progress arg rest this used_values idx s = ground (
    arith,
    OnOk-ok (Moved arg idx) none tt,
    parse_short_text_progress arg this (arg ∷ rest) used_values idx s,
    parse_long_text_progress arg (drop 2 arg) this (arg ∷ rest) used_values idx s,
  )

  parse_other-Progress :
      (cmd : ℕ) (arg : Bytes) (rest : List Bytes) (used_values idx : ℕ) (s : State S)
      → OnOk (Progress arg idx) (parse_other program actions cmd arg rest used_values idx s)
  unfolding parse_other
  parse_other-Progress cmd arg rest used_values idx s =
      let this = program.command_of cmd in
      let Next = Progress arg idx in
      OnOk-option Next (find_command program actions this.cmds arg) _ _
        (OnOk-option Next (get_elem? this.pos_args used_values) _ _
          (OnOk-ok Next _ (inl (omega arith)))
          (λ p.
            OnOk->>= {A = State S × ℕ} {B = Move S} (λ sc. Unit) Next _ _ (OnOk-Unit _)
              (λ sc _. OnOk-ok Next _ (inl (omega arith)))))
        (λ k.
          OnOk->>= {A = State S} {B = Move S} (λ s1. Unit) Next _ _ (OnOk-Unit _)
            (λ s1 _. OnOk-ok Next _ tt))

  pub round-Progress :
      (cmd : ℕ) (arg : Bytes) (rest : List Bytes) (used_values idx : ℕ) (s : State S)
      → OnOk (Progress arg idx) (round program actions cmd arg rest used_values idx s)
  unfolding round
  round-Progress cmd arg rest used_values idx s =
      OnOk->>= {A = Option (Move S)} {B = Move S} (Moved arg idx) (Progress arg idx) _ _
        (parse_named_text_progress arg rest (program.command_of cmd) used_values idx s)
        (λ moved p.
          OnOk-option_on (Moved arg idx) (Progress arg idx) moved _ _ p
            (λ _. parse_other-Progress cmd arg rest used_values idx s)
            (λ move p'. OnOk-ok (Progress arg idx) move p'))

-- a property of what the loop returns, from what a round gives
pub on_proceed :
    {S : Type 0} (P : Move S → Type 0) (Q : Option (Result (State S)) → Type 0)
    (r : Result (Move S)) (on_forward : ℕ → ℕ → ℕ → State S → Option (Result (State S)))
    (on_descend : ℕ → State S → Option (Result (State S)))
    → OnOk P r
    → ((e : Error) → Q (some (err e)))
    → Q (some undefined)
    → ((consumed used_values idx : ℕ) (s : State S)
        → P (forward consumed used_values idx s)
        → Q (on_forward consumed used_values idx s))
    → ((k : ℕ) (s : State S) → P (descend k s) → Q (on_descend k s))
    → Q (proceed r on_forward on_descend)
unfolding OnOk
on_proceed P Q (err e) f g p q_err q_undefined q_forward q_descend = q_err e
on_proceed P Q undefined f g p q_err q_undefined q_forward q_descend = q_undefined
on_proceed P Q (ok (forward c u i s)) f g p q_err q_undefined q_forward q_descend =
    q_forward c u i s p
on_proceed P Q (ok (descend k s)) f g p q_err q_undefined q_forward q_descend = q_descend k s p
