-- ===== src/Rpm/SolvMap/Tables.antt =====
-- Facts about all bytes, by evaluation.
use libhif.Base.{
  ℕ, zero, suc, ◌+◌, ◌*◌, ◌/◌, ◌^◌, ◌<◌, ◌&&◌, Bool, true, false, ◌-◌, ◌≡◌, refl, arith, ◌==◌,
  ==_iff, ltb, ltb→lt, if◌then◌else◌, length, get_or,
}
use libhif.Rpm.SolvMap.{ffs, bit_count_lookup}
use libhif.Rpm.SolvMap.Bits.{bits_of}

unfoldable pub all_below : ℕ → (ℕ → Bool) → Bool
all_below zero p = true
all_below (suc n) p = if p n then all_below n p else false

pub all_below_lem : (n : ℕ) (p : ℕ → Bool) (x : ℕ) → all_below n p ≡ true → x < n → p x ≡ true
unfolding all_below
all_below_lem zero p x h lt = absurd (omega (arith, lt))
all_below_lem (suc n) p x h lt = ground (arith, all_below_lem n p x, h, lt)

-- the bits above a place
abbrev above : ℕ → ℕ → ℕ
above k b = b / 2 ^ suc k

-- what ffs gives of a byte whose low bits were cleared by two shifts
abbrev shifted : ℕ → ℕ → ℕ
shifted k b = if above k b == 0 then 0 else ffs 32 (above k b) + suc k

shift_table :
    all_below 256 (λ b.
      all_below 8
        (λ k. (ffs 32 (above k b * 2 ^ suc k) == shifted k b) && ltb (above k b * 2 ^ suc k) 256))
    ≡ true
unfolding all_below ffs
shift_table = refl

pub ffs_shifted :
    (b k : ℕ)
    → b < 256
    → k < 8
    → ffs 32 (b / 2 ^ suc k * 2 ^ suc k)
      ≡ (if b / 2 ^ suc k == 0 then 0 else ffs 32 (b / 2 ^ suc k) + suc k)
ffs_shifted b k h hk =
    let row = all_below_lem 256 _ b shift_table h in
    let cell = all_below_lem 8 _ k row hk in (==_iff _ _).0 (ground (arith, cell))

width_table : all_below 256 (λ b. all_below 8 (λ k. ltb (above k b) (2 ^ (7 - k)))) ≡ true
unfolding all_below
width_table = refl

pub above_lt : (b k : ℕ) → b < 256 → k < 8 → b / 2 ^ suc k < 2 ^ (7 - k)
above_lt b k h hk = ltb→lt _ _ (all_below_lem 8 _ k (all_below_lem 256 _ b width_table h) hk)

count_table : all_below 256 (λ b. get_or bit_count_lookup b 0 == length (bits_of 8 0 b)) ≡ true
unfolding all_below bit_count_lookup bits_of
count_table = refl

pub lookup_lem : (b : ℕ) → b < 256 → get_or bit_count_lookup b 0 ≡ length (bits_of 8 0 b)
lookup_lem b h = (==_iff _ _).0 (all_below_lem 256 _ b count_table h)
