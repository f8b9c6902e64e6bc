-- ===== src/Rpm/SolvMap/Bitmap.antt =====
-- A bitmap as libsolv's bitmap.h has it, for the tests.
use libhif.Base.{
  ℕ, zero, suc, ◌+◌, ◌-◌, ◌*◌, ◌/◌, ◌%◌, ◌^◌, ◌<◌, ◌&&◌, Bool, true, false, List, [], ◌∷◌, ◌≡◌,
  refl, ap, arith, ◌==◌, ==_iff, ltb, ltb→lt, if◌then◌else◌, length, length-set, get_or, set,
  Bool-cases, inl, inr,
}
use libhif.Rpm.SolvMap.{Map, Libsolv, bits}
use libhif.Rpm.SolvMap.Iteration.{IsBytes}
use libhif.Rpm.SolvMap.Members.{bit_at, IsLibsolv}
use libhif.Rpm.SolvMap.Tables.{all_below, all_below_lem}

abbrev test_bit : ℕ → ℕ → Bool
test_bit b k = b / 2 ^ k % 2 == 1

-- a byte with bit k set or cleared
abbrev with_bit : Bool → ℕ → ℕ → ℕ
with_bit true b k = if test_bit b k then b else b + 2 ^ k
with_bit false b k = if test_bit b k then b - 2 ^ k else b

abbrev same_bool : Bool → Bool → Bool
same_bool true true = true
same_bool false false = true
same_bool _ _ = false

same_bool→eq : (a b : Bool) → same_bool a b ≡ true → a ≡ b
same_bool→eq true true h = refl
same_bool→eq false false h = refl
same_bool→eq true false h = absurd (cc)
same_bool→eq false true h = absurd (cc)

abbrev bit_law : Bool → ℕ → ℕ → ℕ → Bool
bit_law v b k j =
    ltb (with_bit v b k) 256
    && same_bool (test_bit (with_bit v b k) j) (if k == j then v else test_bit b j)

abbrev bit_law_table : Bool → Bool
bit_law_table v = all_below 256 (λ b. all_below 8 (λ k. all_below 8 (λ j. bit_law v b k j)))

set_table : bit_law_table true ≡ true
unfolding all_below
set_table = refl

clear_table : bit_law_table false ≡ true
unfolding all_below
clear_table = refl

both : (a b : Bool) → (a && b) ≡ true → (a ≡ true) × (b ≡ true)
both true b h = (refl, h)
both false b h = absurd (cc)

bit_law_lem : (v : Bool) (b k j : ℕ) → b < 256 → k < 8 → j < 8 → bit_law v b k j ≡ true
bit_law_lem true b k j hb hk hj =
    all_below_lem 8 _ j (all_below_lem 8 _ k (all_below_lem 256 _ b set_table hb) hk) hj
bit_law_lem false b k j hb hk hj =
    all_below_lem 8 _ j (all_below_lem 8 _ k (all_below_lem 256 _ b clear_table hb) hk) hj

with_bit_lt : (v : Bool) (b k : ℕ) → b < 256 → k < 8 → with_bit v b k < 256
with_bit_lt v b k hb hk =
    let law = bit_law_lem v b k 0 hb hk (omega arith) in
    ltb→lt (with_bit v b k) 256 (both _ _ law).0

test_bit-with_bit :
    (v : Bool) (b k j : ℕ)
    → b < 256
    → k < 8
    → j < 8
    → test_bit (with_bit v b k) j ≡ (if k == j then v else test_bit b j)
test_bit-with_bit v b k j hb hk hj =
    let law = bit_law_lem v b k j hb hk hj in
    same_bool→eq _ _ (both (ltb (with_bit v b k) 256) _ law).1

-- the bytes with the bit `id` set or cleared
abbrev changed : Bool → Map → ℕ → Map
changed v m id = record {
  bytes = set m.bytes (id / 8) (with_bit v (get_or m.bytes (id / 8) 0) (id % 8));
}

get_or-IsBytes : (bytes : List ℕ) (i : ℕ) → IsBytes bytes → get_or bytes i 0 < 256
get_or-IsBytes [] i h = omega arith
get_or-IsBytes (b ∷ bs) zero h = h.0
get_or-IsBytes (b ∷ bs) (suc i) h = get_or-IsBytes bs i h.1

set-IsBytes : (bytes : List ℕ) (i v : ℕ) → v < 256 → IsBytes bytes → IsBytes (set bytes i v)
set-IsBytes [] i v lt h = h
set-IsBytes (b ∷ bs) zero v lt h = (lt, h.1)
set-IsBytes (b ∷ bs) (suc i) v lt h = (h.0, set-IsBytes bs i v lt h.1)

get_or-set :
    (bytes : List ℕ) (i j v : ℕ)
    → i < length bytes
    → get_or (set bytes i v) j 0 ≡ (if i == j then v else get_or bytes j 0)
get_or-set [] i j v lt = absurd (omega (arith, lt))
get_or-set (b ∷ bs) zero zero v lt = refl
get_or-set (b ∷ bs) zero (suc j) v lt = ground arith
get_or-set (b ∷ bs) (suc i) zero v lt = ground arith
get_or-set (b ∷ bs) (suc i) (suc j) v lt = ground (arith, get_or-set bs i j v (omega (arith, lt)))

bit_at-changed :
    (v : Bool) (m : Map) (id other : ℕ)
    → IsBytes m.bytes
    → id < bits m
    → bit_at (changed v m id).bytes other ≡ (if id == other then v else bit_at m.bytes other)
bit_at-changed v m id other h lt =
    rw
      (get_or-set m.bytes (id / 8) (other / 8) (with_bit v (get_or m.bytes (id / 8) 0) (id % 8))
        (omega (arith, lt)))
      (elim (Bool-cases (id / 8 == other / 8)) [
        | inl same ↦
            let byte : id / 8 ≡ other / 8 = (==_iff _ _).0 same in
            let place : (id == other) ≡ (id % 8 == other % 8) = ground (arith, byte) in
            rw (same, byte, place)
              (test_bit-with_bit v (get_or m.bytes (other / 8) 0) (id % 8) (other % 8)
                (get_or-IsBytes m.bytes (other / 8) h) (omega arith) (omega arith))
        | inr differ ↦
            let another : (id == other) ≡ false = ground (arith, differ) in
            rw (differ, another) refl
      ])

abbrev pub bitmap : Libsolv
bitmap = record {
  map_init = λ n. record { bytes = [] };
  map_empty = λ m. m;
  mapset = changed true;
  mapclr = changed false;
  maptst = λ m. bit_at m.bytes;
  map_or = λ m other. m;
  map_subtract = λ m other. m;
  map_and = λ m other. m;
}

bits-changed : (v : Bool) (m : Map) (id : ℕ) → bits (changed v m id) ≡ bits m
bits-changed v m id =
    ap (λ n. 8 * n) (length-set m.bytes (id / 8) (with_bit v (get_or m.bytes (id / 8) 0) (id % 8)))

pub bitmap-IsLibsolv : IsLibsolv bitmap
bitmap-IsLibsolv = record {
  maptst_lem = λ m id lt. refl;
  bits-mapset = bits-changed true;
  bits-mapclr = bits-changed false;
  maptst-mapset = λ m id other h lt also. bit_at-changed true m id other h lt;
  maptst-mapclr = λ m id other h lt also. bit_at-changed false m id other h lt;
}
