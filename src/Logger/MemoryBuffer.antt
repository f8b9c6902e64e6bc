-- ===== src/Logger/MemoryBuffer.antt =====
-- libdnf/logger/memory_buffer_logger.cpp: a buffer that keeps the latest messages. The mutex is
-- held for the whole of each method, so a method is one step here.
mod Contents
mod Tests
use libhif.Base.{
  ℕ, zero, suc, ◌+◌, ◌-◌, Bool, ◌||◌, Option, none, some, List, [], ◌∷◌, ◌++◌, Bytes, ltb, leb,
  ◌==◌, if◌then◌else◌, length, get_elem?, set,
}

pub data Level : Type 0 where
  critical error warning notice info debug trace : Level

pub record Item : Type 0 where
  pub time : ℕ
  pub pid : ℕ
  pub level : Level
  pub message : Bytes

pub record Buffer : Type 0 where
  pub max_items : ℕ
  pub first_item_idx : ℕ
  pub items : List Item

-- the constructor; `reserve` only sets aside memory
pub new : ℕ → Buffer
new max_items_to_keep = record { max_items = max_items_to_keep; first_item_idx = 0; items = [] }

pub write : Buffer → Item → Buffer
write b item =
    if b.max_items == 0 || ltb (length b.items) b.max_items
    then record b { items = b.items ++ (item ∷ []) }
    else record b {
      items = set b.items b.first_item_idx item;
      first_item_idx = if leb b.max_items (b.first_item_idx + 1) then 0 else b.first_item_idx + 1;
    }

pub get_items_count : Buffer → ℕ
get_items_count b = length b.items

-- `none` is std::out_of_range
pub get_item : Buffer → ℕ → Option Item
get_item b item_idx =
    if leb (length b.items) item_idx || leb b.max_items item_idx
    then none
    else let idx = item_idx + b.first_item_idx in
      get_elem? b.items (if leb b.max_items idx then idx - b.max_items else idx)

-- A loop that sends items[idx], items[idx + 1], … to a logger, for so many rounds.
pub send : List Item → ℕ → ℕ → List Item
send items idx zero = []
send items idx (suc rounds) = elim (get_elem? items idx) [
  | none ↦ []
  | some msg ↦ msg ∷ send items (idx + 1) rounds
]

-- the messages that the other logger gets, in order
pub write_to_logger : Buffer → List Item
write_to_logger b =
    send b.items b.first_item_idx (length b.items - b.first_item_idx)
    ++ send b.items 0 b.first_item_idx

pub clear : Buffer → Buffer
clear b = record b { first_item_idx = 0; items = [] }

-- a run of writes
pub write_all : Buffer → List Item → Buffer
write_all b [] = b
write_all b (m ∷ ms) = write_all (write b m) ms
