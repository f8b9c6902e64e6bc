-- ===== src/Microdnf/ArgumentParser/Tests.antt =====
-- ArgumentParser: runs, and the properties at a small program.
use Prim.Native.String.{String}
use libhif.Base.{
  ℕ, zero, suc, true, false, Option, some, List, [], ◌∷◌, ◌++◌, ◌≡◌, ◌≢◌, refl, arith, Bytes, codes,
  map, bytes_eq, find_from,
}
use libhif.Microdnf.Arguments.{
  named, command, exactly, NamedArg, Command, Program, conflict, Result, ok, err, undefined, ◌>>=◌,
  Actions, State, count_up, conflicting,
}
use libhif.Microdnf.ArgumentParser.{
  store_values, parse_positional, long_value, short_value, parse_named, parse_long, parse_short,
  find_long, find_short, find_command, finish, parse_long_text, parse_short_text, parse_named_text,
  parse_other, round, loop, size, parse,
}
use libhif.Microdnf.ArgumentParser.Total.{parse_total}
use libhif.Microdnf.ArgumentParser.Counts.{conflict_args_of}
use libhif.Microdnf.ArgumentParser.Conflicts.{parse-conflicts}

-- verbose and quiet exclude each other, setopt has a value
abbrev named_arg_at : ℕ → NamedArg
named_arg_at zero = record {
  name = codes "verbose";
  long_name = codes "verbose";
  short_name = b'v';
  has_arg = false;
  const_val = codes "true";
  value = some 0;
  store_value = true;
  conflict_args = named 0 ∷ named 1 ∷ [];
}
named_arg_at (suc zero) = record {
  name = codes "quiet";
  long_name = codes "quiet";
  short_name = b'q';
  has_arg = false;
  const_val = codes "true";
  value = some 1;
  store_value = true;
  conflict_args = named 0 ∷ named 1 ∷ [];
}
named_arg_at _ = record {
  name = codes "setopt";
  long_name = codes "setopt";
  short_name = b's';
  has_arg = true;
  const_val = [];
  value = some 2;
  store_value = true;
  conflict_args = [];
}

-- the command 0 has the command 1, which takes one package
abbrev command_at : ℕ → Command
command_at zero = record {
  name = codes "microdnf";
  cmds = 1 ∷ [];
  named_args = 0 ∷ 1 ∷ 2 ∷ [];
  pos_args = [];
  conflict_args = [];
}
command_at _ = record {
  name = codes "install";
  cmds = [];
  named_args = 0 ∷ [];
  pos_args = 0 ∷ 1 ∷ [];
  conflict_args = [];
}

abbrev sample : Program
sample = record {
  named_arg = named_arg_at;
  positional_arg = λ p. record {
    name = codes "package";
    nargs = exactly 1;
    store_value = true;
    conflict_args = [];
  };
  command_of = command_at;
}

-- the values in the order in which they were set
abbrev record_values : Actions (List Bytes)
record_values = record {
  set_named = λ o value world. ok (world ++ (value ∷ []));
  set_positional = λ p i value world. ok (world ++ (value ∷ []));
  named_hook = λ n option value world. ok world;
  positional_hook = λ p argv world. ok world;
  command_hook = λ k option argv world. ok world;
}

abbrev before : State (List Bytes)
before = record { parse_count = λ arg. 0; world = [] }

abbrev run : List String → Option (Result (State (List Bytes)))
run argv = parse sample record_values 0 (codes "microdnf") (map codes argv) before

abbrev values_of : Option (Result (State (List Bytes))) → List Bytes
values_of (some (ok s)) = s.world
values_of _ = codes "no state" ∷ []

runs : Unit {0}
unfolding parse loop ◌>>=◌ conflicting store_values parse_positional long_value short_value
    parse_named parse_long parse_short find_long find_short find_command finish parse_long_text
    parse_short_text parse_named_text parse_other round size bytes_eq find_from conflict_args_of
runs = tt

install_sets :
    values_of (run ("-vsx=1" ∷ "--setopt=y" ∷ "install" ∷ "vim" ∷ []))
    ≡ map codes ("true" ∷ "x=1" ∷ "y" ∷ "vim" ∷ [])
unfolding runs
install_sets = refl

conflict_refused : run ("-v" ∷ "--quiet" ∷ []) ≡ some (err (conflict (named 1) (named 0)))
unfolding runs
conflict_refused = refl

-- the text behind a positional argument is passed over
second_package_lost : values_of (run ("install" ∷ "vim" ∷ "emacs" ∷ [])) ≡ map codes ("vim" ∷ [])
unfolding runs
second_package_lost = refl

-- behind "-vx" the place of x stays, and the option -q is read at it
option_lost : values_of (run ("-vx" ∷ "-q" ∷ [])) ≡ map codes ("true" ∷ [])
unfolding runs
option_lost = refl

read_behind_end : run ("-vx" ∷ "-" ∷ []) ≡ some undefined
unfolding runs
read_behind_end = refl

parse_total_example :
    (r : Result (State (List Bytes))) × (run ("-vx" ∷ "install" ∷ "vim" ∷ []) ≡ some r)
parse_total_example =
    parse_total sample record_values 0 (codes "microdnf")
      (map codes ("-vx" ∷ "install" ∷ "vim" ∷ [])) before

abbrev after : State (List Bytes)
after =
    count_up (command 0) (count_up (named 0) (record before { world = map codes ("true" ∷ []) }))

quiet_out : run ("-v" ∷ []) ≡ some (ok after)
unfolding runs
quiet_out = refl

named_apart : named 0 ≢ named 1
named_apart e = ground (arith, e)

parse-conflicts_example : after.parse_count (named 1) ≡ 0
unfolding runs
parse-conflicts_example =
    parse-conflicts sample record_values 0 (codes "microdnf") (map codes ("-v" ∷ [])) before after
      (λ arg. refl) quiet_out (named 0) (named 1) named_apart refl refl refl refl (omega arith)
