-- ===== src/Conf/Kinds/Tests.antt =====
-- Runs of numeric options on concrete sources.
use libhif.Base.{ℕ, false, none, some, [], ◌∷◌, ◌≡◌, refl, ltb, Bytes, Option}
use libhif.Utils.Set.Numbers.{nat_order}
use libhif.Conf.Option.{Setting, default, runtime, try_set_all}
use libhif.Conf.Kinds.{number_kind}
use libhif.Conf.Kinds.Allowed.{try_set_all_bounds}

abbrev setting : Setting ℕ
setting = record { default_value = 4; value = 4; priority = default }

abbrev first_byte : Bytes → Option ℕ
first_byte [] = none
first_byte (c ∷ text) = some c

abbrev one_byte : ℕ → Bytes
one_byte n = n ∷ []

try_set_all_bounds_example :
    (ltb
        (try_set_all (number_kind ltb first_byte one_byte 1 9) setting ((runtime, 12) ∷ [])).value
        1
      ≡ false)
    × (ltb 9
          (try_set_all (number_kind ltb first_byte one_byte 1 9) setting ((runtime, 12) ∷ [])).value
        ≡ false)
try_set_all_bounds_example =
    try_set_all_bounds ltb first_byte one_byte 1 9 setting ((runtime, 12) ∷ []) refl refl
