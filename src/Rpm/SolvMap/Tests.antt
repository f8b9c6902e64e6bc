-- ===== src/Rpm/SolvMap/Tests.antt =====
-- SolvMap: runs, and the properties at a bitmap of three bytes.
use libhif.Base.{◌<◌, ◌≤◌, true, false, some, [], ◌∷◌, ◌≡◌, ◌==◌, refl, map, arith, length, ◌⊎◌}
use libhif.Rpm.SolvMap.{
  pos, Map, ok, out_of_range, add, remove, contains, all_zero, empty, bit_count_lookup, add_counts,
  size, ffs, search, next, begin, begin_again, collect,
}
use libhif.Rpm.SolvMap.Members.{members, collect-members, size-empty}
use libhif.Rpm.SolvMap.Update.{Changed, add-remove}
use libhif.Rpm.SolvMap.Bitmap.{bitmap, bitmap-IsLibsolv}

runs : Unit {0}
unfolding add remove contains all_zero empty bit_count_lookup add_counts size ffs search next begin
    begin_again collect
runs = tt

-- the ids 1, 3, 8 and 23
abbrev packages : Map
packages = record { bytes = 10 ∷ 1 ∷ 128 ∷ [] }

iterates : collect 24 (begin packages) ≡ some (pos 1 ∷ pos 3 ∷ pos 8 ∷ pos 23 ∷ [])
unfolding runs
iterates = refl

counts : size packages ≡ 4
unfolding runs
counts = refl

removes : remove bitmap packages (pos 3) ≡ ok (record { bytes = 2 ∷ 1 ∷ 128 ∷ [] })
unfolding runs
removes = refl

-- begin() of an iterator that has left the first byte does not go back to it
begin_again_stays : (begin_again (next (next (begin packages)))).current_value ≡ pos 8
unfolding runs
begin_again_stays = refl

collect-members_example : collect 24 (begin packages) ≡ some (map pos (members bitmap packages))
collect-members_example =
    collect-members bitmap bitmap-IsLibsolv packages (omega arith, (omega arith, (omega arith, tt)))

size-empty_example :
    (size packages ≡ length (members bitmap packages)) × (empty packages ≡ (size packages == 0))
size-empty_example =
    size-empty bitmap packages bitmap-IsLibsolv (omega arith, (omega arith, (omega arith, tt)))

add-remove_example :
    ((3 < 24)
      × (m' : Map) × (add bitmap packages (pos 3) ≡ ok m')
      × Changed bitmap packages m' 3 true
      × (m'' : Map) × (remove bitmap packages (pos 3) ≡ ok m'')
      × Changed bitmap packages m'' 3 false)
    ⊎ ((24 ≤ 3)
        × (add bitmap packages (pos 3) ≡ out_of_range)
        × (remove bitmap packages (pos 3) ≡ out_of_range)
        × (contains bitmap packages (pos 3) ≡ false))
add-remove_example =
    add-remove bitmap bitmap-IsLibsolv packages 3 (omega arith, (omega arith, (omega arith, tt)))
