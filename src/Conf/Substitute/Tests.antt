-- ===== src/Conf/Substitute/Tests.antt =====
-- Runs of the substitution on concrete texts.
use libhif.Base.{Bytes, codes, List, [], ◌∷◌, ◌≡◌, refl, some, bytes_eq, find_from}
use libhif.Base.Eq.{bytes_equality}
use libhif.Conf.Substitute.{replace_at, round, loop, substitute}
use libhif.Conf.Substitute.Laws.{substitute_total}
use libhif.Utils.PreserveOrderMap.{at}

abbrev vars : List (Bytes × Bytes)
vars = (codes "arch", codes "x86") ∷ (codes "rel", codes "$arch") ∷ []

-- values are not searched again, unknown names stay
substitute_names : substitute (codes "a$arch/${rel}_$none$") vars ≡ some (codes "ax86/$arch_$none$")
unfolding substitute loop round replace_at at bytes_eq find_from
substitute_names = refl

substitute_total_example : (r : Bytes) × (substitute (codes "a$arch") vars ≡ some r)
substitute_total_example = substitute_total (codes "a$arch") vars
