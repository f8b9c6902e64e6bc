-- ===== src/Rpm/SolvMap/Iteration.antt =====
-- The iteration of a SolvMap, and the numbers that the set bits of its bytes stand for.
use libhif.Base.{
  ℕ, zero, suc, ◌+◌, ◌-◌, ◌*◌, ◌/◌, ◌%◌, ◌^◌, ◌<◌, ◌≤◌, false, some, List, [], ◌∷◌, ◌++◌, map, ◌≡◌,
  ◌≢◌, refl, sym, ap, ◌∙◌, arith, ◌==◌, length, get_or, get_or-drop, drop, drop-next, All, ◌⊎◌, inl,
  inr,
}
use libhif.Rpm.SolvMap.{ℤ, pos, Map, SolvMapIterator, ffs, search, next, begin, collect}
use libhif.Rpm.SolvMap.Bits.{
  bits_of, bits_of-zero, bits_of-ffs, ffs_zero, ffs_bound, ffs_of_zero, div-pow_add,
}
use libhif.Rpm.SolvMap.Tables.{ffs_shifted, above_lt}

abbrev pub IsBytes : List ℕ → Type 0
IsBytes bytes = All (λ b. b < 256) bytes

-- the numbers of the set bits of bytes, the first of which is at `c`
unfoldable pub members_at : ℕ → List ℕ → List ℕ
members_at c [] = []
members_at c (b ∷ bs) = bits_of 8 (8 * c) b ++ members_at (c + 1) bs

-- the iterator at bit k of the byte at c, with the numbers that come after it
abbrev rest_of : ℕ → ℕ → ℕ → List ℕ → List ℕ
rest_of c k byte bytes =
    bits_of (7 - k) (suc (8 * c + k)) (byte / 2 ^ suc k) ++ members_at (c + 1) bytes

abbrev Found : ℕ → Type 0
Found fuel =
    (m : Map) (c k v byte : ℕ) (bytes later : List ℕ)
    → drop c m.bytes ≡ byte ∷ bytes
    → IsBytes (byte ∷ bytes)
    → k < 8
    → v ≡ 8 * c + k
    → later ≡ rest_of c k byte bytes
    → length later < fuel
    → collect fuel (record { map = m; map_current = c; current_value = pos v })
      ≡ some (map pos (v ∷ later))

zero_or_suc : (x : ℕ) → (x ≡ 0) ⊎ ((r : ℕ) × (x ≡ suc r))
zero_or_suc zero = inl refl
zero_or_suc (suc r) = inr (r, refl)

-- a number is 0, or ffs finds its lowest bit
abbrev LowestBit : ℕ → ℕ → Type 0
LowestBit n b =
    ((b ≡ 0) × (ffs 32 b ≡ 0)) ⊎ ((r : ℕ) × (ffs 32 b ≡ suc r) × (r < n) × ((b == 0) ≡ false))

lowest_bit : (n b : ℕ) → b < 2 ^ n → n ≤ 32 → LowestBit n b
lowest_bit n b h e = elim (zero_or_suc (ffs 32 b)) [
  | inl z ↦ inl (ffs_zero n 32 b h e z, z)
  | inr (r, found) ↦
      let positive : b ≢ 0 =
        λ z. absurd (omega (arith, sym found ∙ ap (ffs 32) z ∙ ffs_of_zero 32)) in
      inr (r, found, omega (arith, ffs_bound n 32 b h e, found), ground (arith, positive))
]

first_bit :
    (c byte r : ℕ) (bytes : List ℕ)
    → byte < 256
    → r < 8
    → ffs 32 byte ≡ suc r
    → members_at c (byte ∷ bytes) ≡ (8 * c + r) ∷ rest_of c r byte bytes
unfolding members_at
first_bit c byte r bytes h le found =
    ap (λ l. l ++ members_at (c + 1) bytes)
      (bits_of-ffs 8 32 (8 * c) byte r (8 * c + r) (7 - r) (byte / 2 ^ suc r) h (omega arith) found
        refl (omega (arith, le)) refl)

next_bit :
    (c k byte r : ℕ) (bytes : List ℕ)
    → byte < 256
    → k < 8
    → r < 7 - k
    → ffs 32 (byte / 2 ^ suc k) ≡ suc r
    → rest_of c k byte bytes ≡ (8 * c + (suc k + r)) ∷ rest_of c (suc k + r) byte bytes
next_bit c k byte r bytes h hk le found =
    let above = byte / 2 ^ suc k in
    let up : suc (suc k + r) ≡ suc k + suc r = omega arith in
    ap (λ l. l ++ members_at (c + 1) bytes)
      (bits_of-ffs (7 - k) 32 (suc (8 * c + k)) above r (8 * c + (suc k + r)) (7 - (suc k + r))
        (byte / 2 ^ suc (suc k + r)) (above_lt byte k h hk) (omega arith) found (omega arith)
        (omega (arith, le)) (ap (λ j. byte / 2 ^ j) up ∙ div-pow_add byte (suc k) (suc r)))

-- a byte without further bits
no_bit :
    (c k byte : ℕ) (bytes : List ℕ)
    → byte / 2 ^ suc k ≡ 0
    → rest_of c k byte bytes ≡ members_at (c + 1) bytes
no_bit c k byte bytes z =
    ap (λ l. l ++ members_at (c + 1) bytes)
      (ap (bits_of (7 - k) (suc (8 * c + k))) z ∙ bits_of-zero (7 - k) (suc (8 * c + k)))

collect-search :
    (fuel : ℕ)
    → Found fuel
    → (m : Map) (c : ℕ) (bytes : List ℕ) → drop c m.bytes ≡ bytes
    → IsBytes bytes
    → length (members_at c bytes) ≤ fuel
    → collect fuel (search m c bytes) ≡ some (map pos (members_at c bytes))
unfolding search members_at collect
collect-search zero found m c [] e h lt = refl
collect-search (suc fuel) found m c [] e h lt = refl
collect-search fuel found m c (byte ∷ bytes) e h lt = elim (lowest_bit 8 byte h.0 (omega arith)) [
  | inl (z, no_bits) ↦
      let same : members_at c (byte ∷ bytes) ≡ members_at (c + 1) bytes =
        ap (λ l. l ++ members_at (c + 1) bytes)
          (ap (bits_of 8 (8 * c)) z ∙ bits_of-zero 8 (8 * c)) in
      rw (z, bits_of-zero 8 (8 * c))
        (collect-search fuel found m (c + 1) bytes (drop-next c m.bytes byte bytes e) h.1
          (omega (arith, lt, ap length same)))
  | inr (r, bit, below, some_bit) ↦
      let lowest = first_bit c byte r bytes h.0 below bit in
      let at_r : 8 * c + ffs 32 byte - 1 ≡ 8 * c + r = omega (arith, bit) in
      rw (some_bit, at_r, lowest)
        (found m c r (8 * c + r) byte bytes _ e h below refl refl
          (omega (arith, lt, ap length lowest)))
]

collect-step :
    (fuel : ℕ) (it : SolvMapIterator) (v : ℕ) (values : List ℤ)
    → it.current_value ≡ pos v
    → collect fuel (next it) ≡ some values
    → collect (suc fuel) it ≡ some (pos v ∷ values)
unfolding collect
collect-step fuel it v values at_v e = rw (e, at_v) refl

-- operator++ at bit k of a byte
abbrev Step : Map → ℕ → ℕ → ℕ → List ℕ → SolvMapIterator → Type 0
Step m c k byte bytes it =
    ((byte / 2 ^ suc k ≡ 0) × (it ≡ search m (c + 1) bytes))
    ⊎ ((r : ℕ) × (ffs 32 (byte / 2 ^ suc k) ≡ suc r)
        × (r < 7 - k)
        × (it ≡ record { map = m; map_current = c; current_value = pos (8 * c + (suc k + r)) }))

next-Step :
    (m : Map) (c k v byte : ℕ) (bytes : List ℕ)
    → drop c m.bytes ≡ byte ∷ bytes
    → byte < 256
    → k < 8
    → v ≡ 8 * c + k
    → Step m c k byte bytes (next (record { map = m; map_current = c; current_value = pos v }))
unfolding next
next-Step m c k v byte bytes e h hk ev =
    let shift : v % 8 + 1 ≡ suc k = omega (arith, ev) in
    let here : get_or m.bytes c 0 ≡ byte = get_or-drop c m.bytes byte bytes 0 e in
    let after = drop-next c m.bytes byte bytes e in
    let bit = ffs_shifted byte k h hk in
    rw (here, shift, bit, after)
      (elim (lowest_bit (7 - k) (byte / 2 ^ suc k) (above_lt byte k h hk) (omega arith)) [
        | inl (z, no_bits) ↦ inl (z, rw z refl)
        | inr (r, found, below, some_bit) ↦
            let place : 8 * c + (suc r + suc k) - 1 ≡ 8 * c + (suc k + r) = omega arith in
            let not_end : ((suc r + suc k) == 0) ≡ false = ground arith in
            inr (r, found, below, rw (some_bit, found, place, not_end) refl)
      ])

collect-Found : (fuel : ℕ) → Found fuel
collect-Found zero m c k v byte bytes later e h hk ev el lt = absurd (omega (arith, lt))
collect-Found (suc fuel) m c k v byte bytes later e h hk ev el lt =
    collect-step fuel _ v _ refl (elim (next-Step m c k v byte bytes e h.0 hk ev) [
      | inl (z, moved) ↦
          let same = el ∙ no_bit c k byte bytes z in
          rw (moved, same)
            (collect-search fuel (collect-Found fuel) m (c + 1) bytes
              (drop-next c m.bytes byte bytes e) h.1 (omega (arith, lt, ap length same)))
      | inr (r, found, below, moved) ↦
          let same = el ∙ next_bit c k byte r bytes h.0 hk below found in
          rw (moved, same)
            (collect-Found fuel m c (suc k + r) (8 * c + (suc k + r)) byte bytes _ e h
              (omega (arith, below)) refl refl (omega (arith, lt, ap length same)))
    ])

-- begin() gives the first set bit, and ++ the others, until end()
pub collect-begin :
    (m : Map) (fuel : ℕ)
    → IsBytes m.bytes
    → length (members_at 0 m.bytes) ≤ fuel
    → collect fuel (begin m) ≡ some (map pos (members_at 0 m.bytes))
unfolding begin next
collect-begin m fuel h lt = collect-search fuel (collect-Found fuel) m 0 m.bytes refl h lt
