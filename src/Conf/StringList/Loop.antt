-- ===== src/Conf/StringList/Loop.antt =====
-- Every text is read as some list of words.

use libhif.Base.{
  ℕ, zero, suc, ◌+◌, ◌≤◌, ◌<◌, Bool, ◌&&◌, ◌||◌, Option, none, some, List, [], ◌∷◌, Bytes, ◌==◌,
  ltb, length, get_or, find_if, find_if_bounds, ◌≡◌, refl, arith, Option-cases, Bool-cases, inl,
  inr,
}
use libhif.Conf.StringList.{
  is_delimiter, find_not_space, after_newline, after_comma, round, loop, from_string,
}

-- A position, if there is one, lies behind another and inside the text.
abbrev Further : Bytes → ℕ → Option ℕ → Type 0
Further value pos none = Unit
Further value pos (some n) = (pos < n) × (n < length value)

find-Further :
    (p : ℕ → Bool) (value : Bytes) (pos : ℕ) → Further value pos (find_if p value (pos + 1))
find-Further p value pos = elim (Option-cases (find_if p value (pos + 1))) [
  | inl nothing ↦ rw nothing tt
  | inr (n, found) ↦
      let (low, high) = find_if_bounds p value (pos + 1) n found in rw found (omega arith, high)
]

Further-trans :
    (value : Bytes) (a b : ℕ) (n : Option ℕ) → a ≤ b → Further value b n → Further value a n
Further-trans value a b none h f = tt
Further-trans value a b (some n) h f = (omega (arith, f.0), f.1)

after_newline-Further :
    (value : Bytes) (a end : ℕ) (start : Option ℕ)
    → Further value a start
    → Further value a (after_newline value end start)
unfolding after_newline
after_newline-Further value a end none f = tt
after_newline-Further value a end (some start) f =
    elim (Bool-cases (
      get_or value start 0 == b'\n'
      && (get_or value end 0 == b' ' || get_or value end 0 == b','))) [
        | inl holds ↦
            rw (after_newline, holds)
              (Further-trans value a start (find_not_space value (start + 1)) (omega (arith, f.0))
                (find-Further _ value start))
        | inr fails ↦ rw (after_newline, fails) f
      ]

after_comma-Further :
    (value : Bytes) (a end : ℕ) (start : Option ℕ)
    → Further value a start
    → Further value a (after_comma value end start)
unfolding after_comma
after_comma-Further value a end none f = tt
after_comma-Further value a end (some start) f =
    elim (Bool-cases (get_or value start 0 == b',' && get_or value end 0 == b' ')) [
      | inl holds ↦
          rw (after_comma, holds)
            (after_newline-Further value a start (find_not_space value (start + 1)) (
              Further-trans value a start (find_not_space value (start + 1)) (omega (arith, f.0))
                (find-Further _ value start)))
      | inr fails ↦ rw (after_comma, fails) (after_newline-Further value a end (some start) f)
    ]

round-Further : (value : Bytes) (start : ℕ) → Further value start (round value start).1
unfolding round
round-Further value start = elim (Option-cases (find_if is_delimiter value start)) [
  | inl nothing ↦ rw (round, nothing) tt
  | inr (end, found) ↦
      let (low, high) = find_if_bounds is_delimiter value start end found in
      rw (round, found)
        (after_comma-Further value start end (find_not_space value (end + 1)) (
          Further-trans value start end (find_not_space value (end + 1)) low
            (find-Further _ value end)))
]

Further-inside :
    (value : Bytes) (pos n : ℕ) (o : Option ℕ)
    → Further value pos o
    → o ≡ some n
    → (pos < n) × (n < length value)
Further-inside value pos n none f e = absurd cc
Further-inside value pos n (some m) f e = let same : m ≡ n = ground (arith, e) in rw same at f

loop_total :
    (fuel : ℕ) (value : Bytes) (start : Option ℕ)
    → 0 < fuel
    → ((s : ℕ) → start ≡ some s → (s < length value) × (length value < fuel + s))
    → (words : List Bytes) × (loop fuel value start ≡ some words)
unfolding loop
loop_total zero value start h k = absurd (omega arith)
loop_total (suc fuel) value none h k = ([], refl)
loop_total (suc fuel) value (some start) h k =
    let (low, high) = k start refl in
    let (words, rest) = loop_total fuel value (round value start).1 (omega arith) (λ n e.
      let (further, inside) =
        Further-inside value start n (round value start).1 (round-Further value start) e in
      (inside, omega arith)) in
    elim (Bool-cases (ltb start (length value))) [
      | inl more ↦ ((round value start).0 ∷ words, rw (loop, rest, more) refl)
      | inr none_left ↦ ([], rw (loop, rest, none_left) refl)
    ]

-- Every text is read as some list of words.
pub from_string_total : (value : Bytes) → (words : List Bytes) × (from_string value ≡ some words)
unfolding from_string
from_string_total value =
    loop_total (length value + 2) value (find_not_space value 0) (omega arith)
      (λ s e. let (low, high) = find_if_bounds _ value 0 s e in (high, omega arith))
