-- ===== src/Conf/OptionBinds/Tests.antt =====
-- Names bound in a state that is one text.
use libhif.Base.{true, false, none, List, [], ◌∷◌, Bytes, codes, ◌≡◌, refl, bytes_eq}
use libhif.Conf.Option.{default}
use libhif.Conf.OptionBinds.{Target, Item, ok, at, add, find_item}
use libhif.Conf.OptionBinds.Names.{try_add, try_add_all, or_first, at-try_add_all}
use libhif.Utils.PreserveOrderMap as Map

abbrev target : Target Bytes
target = record { priority = λ s. default; set = λ s p v. v; value_string = λ s. s }

abbrev item : Item Bytes
item = record {
  option = target;
  new_str_func = none;
  get_value_str_func = none;
  is_append_option = false;
}

abbrev bound : List (Bytes × Item Bytes)
bound = (codes "a", item) ∷ []

abbrev another : Item Bytes
another = record item { is_append_option = true }

at-try_add_all_example :
    at
      (try_add_all bound ((codes "a", another) ∷ (codes "b", another) ∷ (codes "b", item) ∷ []))
      (codes "b")
    ≡ or_first
        (at bound (codes "b"))
        (codes "b")
        ((codes "a", another) ∷ (codes "b", another) ∷ (codes "b", item) ∷ [])
at-try_add_all_example =
    at-try_add_all bound ((codes "a", another) ∷ (codes "b", another) ∷ (codes "b", item) ∷ [])
      (codes "b")

-- a bound name keeps its item
keeps_first : at (try_add_all bound ((codes "a", another) ∷ [])) (codes "a") ≡ ok item
unfolding try_add_all try_add add at find_item Map.at Map.assign bytes_eq
keeps_first = refl
