-- ===== src/Rpm/SolvMap.antt =====
-- libdnf/rpm/solv/solv_map.hpp and map_iterator.hpp, the sets of package ids as bitmaps. libsolv's operations
-- on a Map are a parameter; a Map is its bytes, as the code reads them.
pub mod Bits
pub mod Tables
pub mod Iteration
pub mod Members
pub mod Update
pub mod Bitmap
mod Tests
use libhif.Base.{
  ℕ, zero, suc, ◌+◌, ◌-◌, ◌*◌, ◌/◌, ◌%◌, ◌^◌, ◌<◌, ◌≤◌, Bool, true, false, not, ◌&&◌, ◌||◌, Option,
  none, some, List, [], ◌∷◌, ◌≡◌, ◌==◌, ltb, if◌then◌else◌, length, get_or, drop, All,
}

pub data ℤ : Type 0 where
  pos negsuc : ℕ → ℤ

pub record Map : Type 0 where
  pub bytes : List ℕ

-- libsolv's bitmap.h
pub record Libsolv : Type 0 where
  pub map_init : ℕ → Map
  pub map_empty : Map → Map
  pub mapset : Map → ℕ → Map
  pub mapclr : Map → ℕ → Map
  pub maptst : Map → ℕ → Bool
  pub map_or : Map → Map → Map
  pub map_subtract : Map → Map → Map
  pub map_and : Map → Map → Map

-- out_of_range is the exception
pub data Result : Type 0 where
  ok : Map → Result
  out_of_range : Result

-- map.size << 3
abbrev pub bits : Map → ℕ
bits map = 8 * length map.bytes

module _ (solv : Libsolv) where
  -- the constructor of an empty bitmap
  pub create : ℕ → Map
  create size = solv.map_init size

  pub clear : Map → Map
  clear map = solv.map_empty map

  -- |=, -= and &=, of a bitmap or of a SolvMap
  pub unite : Map → Map → Map
  unite map other = solv.map_or map other

  pub subtract : Map → Map → Map
  subtract map other = solv.map_subtract map other

  pub intersect : Map → Map → Map
  intersect map other = solv.map_and map other

  pub add : Map → ℤ → Result
  add map (negsuc n) = out_of_range
  add map (pos id) = if ltb id (bits map) then ok (solv.mapset map id) else out_of_range

  pub remove : Map → ℤ → Result
  remove map (negsuc n) = out_of_range
  remove map (pos id) = if ltb id (bits map) then ok (solv.mapclr map id) else out_of_range

  pub contains : Map → ℤ → Bool
  contains map (negsuc n) = false
  contains map (pos id) = if ltb id (bits map) then solv.maptst map id else false

-- the loop of empty()
pub all_zero : List ℕ → Bool
all_zero [] = true
all_zero (byte ∷ bytes) = if byte == 0 then all_zero bytes else false

pub empty : Map → Bool
empty map = all_zero map.bytes

-- BIT_COUNT_LOOKUP, by its macros
abbrev pub b2 : ℕ → List ℕ → List ℕ
b2 n rest = n ∷ (n + 1) ∷ (n + 1) ∷ (n + 2) ∷ rest

abbrev pub b4 : ℕ → List ℕ → List ℕ
b4 n rest = b2 n (b2 (n + 1) (b2 (n + 1) (b2 (n + 2) rest)))

abbrev pub b6 : ℕ → List ℕ → List ℕ
b6 n rest = b4 n (b4 (n + 1) (b4 (n + 1) (b4 (n + 2) rest)))

pub bit_count_lookup : List ℕ
bit_count_lookup = b6 0 (b6 1 (b6 1 (b6 2 [])))

-- the loop of size()
pub add_counts : ℕ → List ℕ → ℕ
add_counts result [] = result
add_counts result (byte ∷ bytes) = add_counts (result + get_or bit_count_lookup byte 0) bytes

pub size : Map → ℕ
size map = add_counts 0 map.bytes

-- the C library's ffs, of a number of at most `fuel` bits
pub ffs : ℕ → ℕ → ℕ
ffs zero n = 0
ffs (suc fuel) n =
    let rest = ffs fuel (n / 2) in if n == 0 then 0 else if n % 2 == 1 then 1 else suc rest

-- `map_current` is an index of the bytes
pub record SolvMapIterator : Type 0 where
  pub map : Map
  pub map_current : ℕ
  pub current_value : ℤ

abbrev pub end_value : ℤ
end_value = negsuc 1

-- the loop of operator++ on the bytes from `map_current` on
pub search : Map → ℕ → List ℕ → SolvMapIterator
search map current [] = record { map = map; map_current = current; current_value = end_value }
search map current (byte ∷ bytes) =
    let later = search map (current + 1) bytes in
    if byte == 0 then later else record {
      map = map;
      map_current = current;
      current_value = pos (8 * current + ffs 32 byte - 1);
    }

abbrev pub search_from : Map → ℕ → SolvMapIterator
search_from map current = search map current (drop current map.bytes)

-- operator++
pub next : SolvMapIterator → SolvMapIterator
next it = elim it.current_value as (λ v. SolvMapIterator) [
  | negsuc n ↦ search_from it.map it.map_current
  | pos value ↦
      let shift = value % 8 + 1 in
      let byte = get_or it.map.bytes it.map_current 0 / 2 ^ shift in
      let bit = ffs 32 (byte * 2 ^ shift) in
      if bit == 0
      then search_from it.map (it.map_current + 1)
      else record it { current_value = pos (8 * it.map_current + bit - 1) }
]

-- the constructor, which SolvMap::begin() calls
pub begin : Map → SolvMapIterator
begin map = next (record { map = map; map_current = 0; current_value = negsuc 0 })

-- the method begin(), which leaves map_current as it is
pub begin_again : SolvMapIterator → SolvMapIterator
begin_again it = next (record it { current_value = negsuc 0 })

-- the test against end()
abbrev pub is_end : ℤ → Bool
is_end (pos value) = false
is_end (negsuc n) = n == 1

-- the values from an iterator up to end(); `none` if there are more than `fuel`
pub collect : ℕ → SolvMapIterator → Option (List ℤ)
collect zero it = if is_end it.current_value then some [] else none
collect (suc fuel) it =
    let rest = collect fuel (next it) in
    if is_end it.current_value
    then some []
    else elim rest [ none ↦ none | some values ↦ some (it.current_value ∷ values) ]
