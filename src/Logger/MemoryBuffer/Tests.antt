-- ===== src/Logger/MemoryBuffer/Tests.antt =====
-- Runs of the buffer on concrete messages.
use libhif.Base.{ℕ, none, ◌==◌, if◌then◌else◌, List, [], ◌∷◌, ◌≡◌, refl, get_elem?, codes}
use libhif.Logger.MemoryBuffer.{
  Item, Buffer, Level, get_item, new, write, write_to_logger, write_all, send,
}
use libhif.Logger.MemoryBuffer.Contents.{
  latest, IsValid, write_to_logger-write_all, get_item-write_all,
}

abbrev line : ℕ → Item
line n = record { time = n; pid = 7; level = Level.info; message = codes "line" }

abbrev three_lines : List Item
three_lines = line 1 ∷ line 2 ∷ line 3 ∷ []

two_of_three : write_to_logger (write_all (new 2) three_lines) ≡ line 2 ∷ line 3 ∷ []
unfolding write_to_logger write_all write new send
two_of_three = refl

write_to_logger-write_all_example :
    IsValid (write_all (new 2) three_lines)
    × (write_to_logger (write_all (new 2) three_lines) ≡ latest 2 three_lines)
write_to_logger-write_all_example = write_to_logger-write_all 2 three_lines

get_item-write_all_example :
    get_item (write_all (new 2) three_lines) 1
    ≡ (if 2 == 0 then none else get_elem? (latest 2 three_lines) 1)
get_item-write_all_example = get_item-write_all 2 three_lines 1

abbrev unlimited : Buffer
unlimited = record { max_items = 0; first_item_idx = 0; items = line 1 ∷ [] }
