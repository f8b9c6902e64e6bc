-- ===== src/Conf/Bool/Accepted.antt =====
-- Which texts are a Boolean.
use libhif.Base.{Bool, List, [], ◌∷◌, Bytes, ◌≡◌, refl, arith}
use libhif.Conf.Bool.{lower, from_string, bool_kind}
use libhif.Conf.Option.{Setting, Priority, set_string}

lower-lower : (value : Bytes) → lower (lower value) ≡ lower value
lower-lower [] = refl
lower-lower (ch ∷ value) = ground (arith, lower-lower value)

-- Setting a Boolean option from a text does not depend on the case of the text's letters, whatever
-- words the option accepts.
pub set_string-lower :
    (true_values false_values : List Bytes) (s : Setting Bool) (priority : Priority) (value : Bytes)
    → set_string (bool_kind true_values false_values) s priority (lower value)
      ≡ set_string (bool_kind true_values false_values) s priority value
unfolding set_string from_string
set_string-lower true_values false_values s priority value =
    rw (set_string, from_string, lower-lower value) refl
