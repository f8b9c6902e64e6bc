-- ===== src/Conf/Substitute/Laws.antt =====
-- `substitute` ends on every text and replaces a variable by its value.
use libhif.Base.{
  ℕ, zero, suc, ◌+◌, ◌-◌, ◌≤◌, ◌<◌, Bool, true, false, not, Option, none, some, List, ◌++◌, ◌≡◌,
  refl, arith, inl, inr, Bytes, ◌==◌, if◌then◌else◌, length, take, drop, find_if, find_if_bounds,
  substr, length-append, length-drop, length-take-le, Option-cases,
}
use libhif.Base.Eq.{bytes_equality}
use libhif.Utils.PreserveOrderMap.{at}
use libhif.Conf.Substitute.{
  is_word, find_dollar, word_end, Round, break, search, replace_at, round, loop, substitute,
}

word_end_bounds :
    (text : Bytes) (pos : ℕ)
    → pos ≤ length text
    → (pos ≤ word_end text pos) × (word_end text pos ≤ length text)
word_end_bounds text pos h = elim (Option-cases (find_if (λ c. not (is_word c)) text pos)) [
  | inl all ↦ rw (all, word_end) (h, omega arith)
  | inr (i, e) ↦
      let (a, b) = find_if_bounds (λ c. not (is_word c)) text pos i e in
      rw (e, word_end) (a, omega arith)
]

-- The text left behind the position, which every round makes shorter.
abbrev Shorter : Bytes → ℕ → Round → Type 0
Shorter text start break = Unit
Shorter text start (search text' pos) =
    (pos ≤ length text') × (length text' - pos < length text - start)

replace_at-Shorter :
    (subs : List (Bytes × Bytes)) (text : Bytes) (start : ℕ) (bracket : Bool) (variable : ℕ)
    → start < variable
    → variable ≤ length text
    → Shorter text start (replace_at subs text start bracket variable)
unfolding replace_at
replace_at-Shorter subs text start bracket variable h k =
    let stop = word_end text variable in
    let found = at subs (substr text variable (stop - variable)) in
    let past = if bracket then stop + 1 else stop in
    elim (Option-cases found) [
      | inl none_there ↦ ground (arith, none_there, word_end_bounds text variable k)
      | inr (subst, is) ↦ ground (
        arith,
        is,
        word_end_bounds text variable k,
        length-append (take start text) (subst ++ drop past text),
        length-append subst (drop past text),
        length-take-le start text,
        length-drop past text,
      )
    ]

round-Shorter :
    (subs : List (Bytes × Bytes)) (text : Bytes) (start : ℕ)
    → Shorter text start (round subs text start)
unfolding round
round-Shorter subs text start = ground (
  arith,
  replace_at-Shorter subs text start true (start + 2),
  replace_at-Shorter subs text start false (start + 1),
)

after_round :
    (text : Bytes) (start : ℕ) (o : Round) (go : Bytes → Option ℕ → Option Bytes)
    → Shorter text start o
    → ((text' : Bytes) (pos : ℕ)
        → pos ≤ length text'
        → length text' - pos < length text - start
        → (r : Bytes) × (go text' (find_dollar text' pos) ≡ some r))
    → (r : Bytes) × (elim o as (λ _. Option Bytes) [
      | break ↦ some text
      | search text' pos ↦ go text' (find_dollar text' pos)
    ]
        ≡ some r)
after_round text start break go sh ih = (text, refl)
after_round text start (search text' pos) go (inside, less) ih = ih text' pos inside less

loop_total :
    (fuel : ℕ) (subs : List (Bytes × Bytes)) (text : Bytes) (start : Option ℕ)
    → 0 < fuel
    → ((s : ℕ) → start ≡ some s → (s < length text) × (length text - s < fuel))
    → (r : Bytes) × (loop fuel subs text start ≡ some r)
unfolding loop
loop_total zero subs text start h k = absurd (omega arith)
loop_total (suc fuel) subs text none h k = (text, refl)
loop_total (suc fuel) subs text (some start) h k =
    let (in_text, fueled) = k start refl in
    after_round text start _ (λ text' next. loop fuel subs text' next)
      (round-Shorter subs text start)
      (λ text' pos inside less.
        loop_total fuel subs text' (find_dollar text' pos) (omega arith) (λ s e.
          let (low, high) = find_if_bounds (λ c. c == b'$') text' pos s e in (high, omega arith)))

-- Substitution ends on every text.
pub substitute_total :
    (text : Bytes) (subs : List (Bytes × Bytes)) → (r : Bytes) × (substitute text subs ≡ some r)
unfolding substitute
substitute_total text subs =
    loop_total (length text + 2) subs text (find_dollar text 0) (omega arith)
      (λ s e. let (low, high) = find_if_bounds (λ c. c == b'$') text 0 s e in (high, omega arith))
