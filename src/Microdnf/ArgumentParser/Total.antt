-- ===== src/Microdnf/ArgumentParser/Total.antt =====
-- ArgumentParser::parse ends on every list of texts, whatever the commands refer to.
use mathlib.Core.Option
use libhif.Base.{
  ℕ, zero, suc, ◌+◌, ◌-◌, ◌≤◌, ◌<◌, Option, none, some, List, [], ◌∷◌, ◌≡◌, ◌⊎◌, refl, arith, Bytes,
  length, drop,
}
use libhif.Microdnf.Arguments.{Program, Result, err, undefined, ◌>>=◌, Actions, State}
use libhif.Microdnf.ArgumentParser.{finish, size, round, loop, parse}
use libhif.Microdnf.ArgumentParser.Rounds.{Progress, round-Progress, on_proceed}

-- the rounds that are left, at most
abbrev rounds : List Bytes → ℕ → ℕ
rounds [] idx = 0
rounds (arg ∷ rest) idx = suc (length arg - idx) + size rest

abbrev Returns : {A : Type 0} → Option A → Type 0
Returns {A} o = (a : A) × (o ≡ some a)

Returns-map : {A B : Type 0} (f : A → B) (o : Option A) → Returns o → Returns (Option.map f o)
Returns-map f none (a, e) = ground (arith, e)
Returns-map f (some b) r = (f b, refl)

rounds_le : (argv : List Bytes) (idx : ℕ) → rounds argv idx ≤ size argv
unfolding size
rounds_le [] idx = omega arith
rounds_le (arg ∷ argv) idx = omega arith

size-drop : (n : ℕ) (argv : List Bytes) → size (drop n argv) ≤ size argv
unfolding size
size-drop zero argv = omega arith
size-drop (suc n) [] = omega arith
size-drop (suc n) (arg ∷ argv) = omega (arith, size-drop n argv)

rounds_fewer :
    (arg : Bytes) (rest : List Bytes) (consumed idx idx' : ℕ)
    → (1 ≤ consumed) ⊎ ((consumed ≡ 0) × (idx' ≡ idx + 1) × (idx < length arg))
    → rounds (drop consumed (arg ∷ rest)) idx' < rounds (arg ∷ rest) idx
rounds_fewer arg rest zero idx idx' progress = ground (arith, progress)
rounds_fewer arg rest (suc n) idx idx' progress =
    omega (arith, rounds_le (drop n rest) idx', size-drop n rest)

module _ {S : Type 0} (program : Program) (actions : Actions S) where
  loop_total :
      (fuel cmd : ℕ) (option : Bytes) (argv left : List Bytes) (used_values idx : ℕ) (s : State S)
      → rounds left idx < fuel
      → Returns (loop program actions fuel cmd option argv left used_values idx s)
  unfolding loop size
  loop_total zero cmd option argv left used_values idx s enough = absurd (omega (arith, enough))
  loop_total (suc fuel) cmd option argv [] used_values idx s enough = (_, refl)
  loop_total (suc fuel) cmd option argv (arg ∷ rest) used_values idx s enough =
      on_proceed (Progress arg idx) Returns (round program actions cmd arg rest used_values idx s) _
        _ (round-Progress program actions cmd arg rest used_values idx s) (λ e. (err e, refl))
        (undefined, refl)
        (λ consumed used_values' idx' s' progress.
          loop_total fuel cmd option argv (drop consumed (arg ∷ rest)) used_values' idx' s'
            (omega (arith, enough, rounds_fewer arg rest consumed idx idx' progress)))
        (λ k s' _.
          Returns-map (λ r. r >>= finish program actions cmd option argv) _
            (loop_total fuel k arg (arg ∷ rest) rest 0 0 s'
              (omega (arith, enough, rounds_le rest 0))))

  -- parse() of a root command ends with a state, an exception or a read behind the end of a text, on
  -- every list of texts and with every graph of commands.
  pub parse_total :
      (root_command : ℕ) (name : Bytes) (argv : List Bytes) (s : State S)
      → (r : Result (State S)) × (parse program actions root_command name argv s ≡ some r)
  unfolding parse
  parse_total root_command name argv s =
      loop_total (1 + size argv) root_command name (name ∷ argv) argv 0 0 s
        (omega (arith, rounds_le argv 0))
