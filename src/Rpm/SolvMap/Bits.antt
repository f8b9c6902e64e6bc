-- ===== src/Rpm/SolvMap/Bits.antt =====
-- The bits of bytes, lowest first, and what ffs finds of them.
use native.Mathlib.Nat.{pow-succ', div-div-eq-div-mul, div-one}
use libhif.Base.{
  ℕ, zero, suc, ◌+◌, ◌/◌, ◌%◌, ◌^◌, ◌<◌, ◌≤◌, List, [], ◌∷◌, ◌≡◌, refl, sym, ap, ap₂, ◌∙◌, arith,
  ◌==◌, if◌then◌else◌, length,
}
use libhif.Rpm.SolvMap.{ffs}

-- the set bits of a number of `n` bits, counted from `p`
unfoldable pub bits_of : ℕ → ℕ → ℕ → List ℕ
bits_of zero p b = []
bits_of (suc n) p b = let rest = bits_of n (suc p) (b / 2) in if b % 2 == 1 then p ∷ rest else rest

pub bits_of-zero : (n p : ℕ) → bits_of n p 0 ≡ []
unfolding bits_of
bits_of-zero zero p = refl
bits_of-zero (suc n) p = bits_of-zero n (suc p)

pub div-pow-suc : (b k : ℕ) → b / 2 ^ suc k ≡ b / 2 / 2 ^ k
div-pow-suc b k = ap (λ (d : ℕ). b / d) (pow-succ' 2 k) ∙ sym (div-div-eq-div-mul b 2 (2 ^ k))

pub div-pow_add : (b k r : ℕ) → b / 2 ^ (k + r) ≡ b / 2 ^ k / 2 ^ r
div-pow_add b zero r =
    let no_more : 0 + r ≡ r = omega arith in
    ap (λ (k : ℕ). b / 2 ^ k) no_more ∙ ap (λ (d : ℕ). d / 2 ^ r) (sym (div-one b))
div-pow_add b (suc k) r =
    let one_more : suc k + r ≡ suc (k + r) = omega arith in
    ap (λ (j : ℕ). b / 2 ^ j) one_more
    ∙ div-pow-suc b (k + r)
    ∙ div-pow_add (b / 2) k r
    ∙ ap (λ (d : ℕ). d / 2 ^ r) (sym (div-pow-suc b k))

half_lt : (n b : ℕ) → b < 2 ^ suc n → b / 2 < 2 ^ n
half_lt n b h = omega (arith, h, pow-succ' 2 n)

-- ffs is 0 of 0 only, and finds a bit inside
pub ffs_zero : (n f b : ℕ) → b < 2 ^ n → n ≤ f → ffs f b ≡ 0 → b ≡ 0
unfolding ffs
ffs_zero zero f b h e z = omega (arith, h)
ffs_zero (suc n) zero b h e z = absurd (omega (arith, e))
ffs_zero (suc n) (suc f) b h e z = ground (arith, z)

pub ffs_bound : (n f b : ℕ) → b < 2 ^ n → n ≤ f → ffs f b ≤ n
unfolding ffs
ffs_bound zero zero b h e = omega arith
ffs_bound zero (suc f) b h e = ground (arith, h)
ffs_bound (suc n) zero b h e = omega arith
ffs_bound (suc n) (suc f) b h e =
    ground (arith, ffs_bound n f (b / 2) (half_lt n b h) (omega (arith, e)))

-- the lowest bit, and the others
pub bits_of-ffs :
    (n f p b r q m c : ℕ)
    → b < 2 ^ n
    → n ≤ f
    → ffs f b ≡ suc r
    → q ≡ p + r
    → n ≡ suc (r + m)
    → c ≡ b / 2 ^ suc r
    → bits_of n p b ≡ q ∷ bits_of m (suc q) c
unfolding bits_of ffs
bits_of-ffs zero f p b r q m c h e found eq em ec = absurd (omega (arith, em))
bits_of-ffs (suc n) zero p b r q m c h e found eq em ec = absurd (omega (arith, e))
bits_of-ffs (suc n) (suc f) p b zero q m c h e found eq em ec =
    let all_zero = ffs_zero n f (b / 2) (half_lt n b h) (omega (arith, e)) in
    let odd : b % 2 ≡ 1 = ground (arith, found, all_zero) in
    let at_p : q ≡ p = omega (arith, eq) in
    let as_many : m ≡ n = omega (arith, em) in
    ground
      (arith, odd, ap₂ (λ i k. i ∷ bits_of k (suc i) c) at_p as_many, ap (bits_of n (suc p)) ec)
bits_of-ffs (suc n) (suc f) p b (suc r) q m c h e found eq em ec =
    let later : bits_of n (suc p) (b / 2) ≡ q ∷ bits_of m (suc q) c =
      bits_of-ffs n f (suc p) (b / 2) r q m c (half_lt n b h) (omega (arith, e))
        (ground (arith, found)) (omega (arith, eq)) (omega (arith, em))
        (ec ∙ div-pow-suc b (suc r)) in
    ground (arith, found, later)

pub ffs_of_zero : (f : ℕ) → ffs f 0 ≡ 0
unfolding ffs
ffs_of_zero zero = refl
ffs_of_zero (suc f) = refl

pub length-bits_of : (n p q b : ℕ) → length (bits_of n p b) ≡ length (bits_of n q b)
unfolding bits_of
length-bits_of zero p q b = refl
length-bits_of (suc n) p q b = ground (arith, length-bits_of n (suc p) (suc q) (b / 2))

pub bits_of_positive : (n p b : ℕ) → b < 2 ^ n → 1 ≤ b → 1 ≤ length (bits_of n p b)
unfolding bits_of
bits_of_positive zero p b h le = absurd (omega (arith, h, le))
bits_of_positive (suc n) p b h le =
    ground (arith, le, bits_of_positive n (suc p) (b / 2) (half_lt n b h))
