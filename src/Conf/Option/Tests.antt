-- ===== src/Conf/Option/Tests.antt =====
-- Runs of options on concrete sources.
use libhif.Base.{ℕ, ◌==◌, none, some, List, [], ◌∷◌, ◌≡◌, refl, leb, if◌then◌else◌}
use libhif.Conf.Option.{
  Priority, default, main_config, repo_config, command_line, runtime, number, Kind, Setting, set,
  try_set, try_set_all, child_get_value, Child, child_set,
}
use libhif.Conf.Option.Sources.{top, last_with, try_set_all_lem}
use libhif.Conf.Option.Inheritance.{
  Call, sets_child, sets_parent, of_child, of_parent, try_child_set, call_all,
  child_get_value-call_all,
}

-- a number of at most 100, whose texts are their first bytes
abbrev percent : Kind ℕ
percent = record {
  test = λ n. leb n 100;
  from_string = elim [ [] ↦ none | c ∷ text ↦ some c ];
  to_string = λ n. n ∷ [];
}

abbrev setting : Setting ℕ
setting = record { default_value = 1; value = 1; priority = default }

abbrev sources : List (Priority × ℕ)
sources = (repo_config, 5) ∷ (command_line, 200) ∷ (repo_config, 6) ∷ (main_config, 7) ∷ []

final : (try_set_all percent setting sources).value ≡ 6
unfolding try_set_all try_set set
final = refl

try_set_all_lem_example :
    (number (try_set_all percent setting sources).priority ≡ top percent 10 sources)
    × ((try_set_all percent setting sources).value
        ≡ last_with percent (top percent 10 sources) sources 1)
try_set_all_lem_example = try_set_all_lem percent setting sources

abbrev child : Child percent
child = record { own_value = 3; own_priority = Priority.empty }

abbrev child_and_parent : List (Call ℕ)
child_and_parent =
    sets_parent (main_config, 9)
    ∷ sets_child (repo_config, 200)
    ∷ sets_parent (runtime, 300)
    ∷ sets_child (repo_config, 4)
    ∷ []

child_get_value-call_all_example :
    let end = call_all percent (child, setting) child_and_parent in
    child_get_value percent end.0 end.1 ≡ (
      if top percent 0 (of_child child_and_parent) == 0
      then last_with percent
          (top percent 10 (of_parent child_and_parent))
          (of_parent child_and_parent)
          1
      else last_with percent
          (top percent 0 (of_child child_and_parent))
          (of_child child_and_parent)
          3)
child_get_value-call_all_example = child_get_value-call_all percent child setting child_and_parent

shows_own :
    let end = call_all percent (child, setting) child_and_parent in
    child_get_value percent end.0 end.1 ≡ 4
unfolding call_all try_child_set child_set try_set set child_get_value
shows_own = refl
