-- ===== src/Utils/PreserveOrderMap/Tests.antt =====
-- Runs of the map on concrete contents.
use libhif.Base.{
  ℕ, Bytes, codes, List, [], ◌∷◌, ◌≡◌, refl, false, some, none, if◌then◌else◌, bytes_eq,
}
use libhif.Base.Eq.{bytes_equality}
use libhif.Utils.PreserveOrderMap.{
  at, assign, erase, insert, count, find, find_position, erase_position,
}
use libhif.Utils.PreserveOrderMap.Laws.{keys, holds, IsUnique, at-assign, erase_reads}

abbrev two : List (Bytes × ℕ)
two = (codes "b", 1) ∷ (codes "a", 2) ∷ []

program : Unit {0}
unfolding at assign erase insert count find find_position erase_position bytes_eq
program = tt

insert_keeps : insert two (codes "a", 7) ≡ (two, false)
unfolding program
insert_keeps = refl

count_one : count two (codes "a") ≡ 1
unfolding program
count_one = refl

at-assign_example :
    at (assign two (codes "a") 7) (codes "a")
    ≡ (if bytes_eq (codes "a") (codes "a") then some 7 else at two (codes "a"))
at-assign_example = at-assign two (codes "a") (codes "a") 7

two-IsUnique : IsUnique (keys two)
unfolding program
two-IsUnique = (refl, (refl, tt))

erase_reads_example :
    IsUnique (keys (erase two (codes "b")).0)
    × ((erase two (codes "b")).1 ≡ (if holds (keys two) (codes "b") then 1 else 0))
    × ((other : Bytes)
        → at (erase two (codes "b")).0 other
          ≡ (if bytes_eq (codes "b") other then none else at two other))
erase_reads_example = erase_reads two (codes "b") two-IsUnique
