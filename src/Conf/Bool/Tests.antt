-- ===== src/Conf/Bool/Tests.antt =====
-- Runs of Boolean options on concrete texts.
use libhif.Base.{false, some, codes, ◌≡◌, refl, bytes_eq}
use libhif.Conf.Bool.{one_of, from_string, default_true_values, default_false_values}

mixed_case : from_string default_true_values default_false_values (codes "oFf") ≡ some false
unfolding from_string one_of bytes_eq
mixed_case = refl
