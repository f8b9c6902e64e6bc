-- ===== src/Conf/StringList/RoundTrip.antt =====
-- A list of words is read back from its text.

use libhif.Base.{
  ℕ, zero, suc, ◌+◌, ◌-◌, ◌≤◌, ◌<◌, true, false, not, none, some, List, [], ◌∷◌, ◌++◌, Bytes, ◌==◌,
  ltb, length, get_or, find_if, find_from, substr, ◌≡◌, ◌≢◌, refl, ap, sym, ◌∙◌, arith, All,
  append_assoc, append-nil, length-append, NonePass, find_from_first, find_from-none,
  find_if_suffix, substr_middle, drop-length_append,
}
use libhif.Conf.StringList.{
  is_delimiter, find_not_space, after_newline, after_comma, round, loop, from_string, more,
  to_string,
}

-- A word has a byte, and no byte that ends a word.
abbrev pub IsWord : Bytes → Type 0
IsWord w = (w ≢ []) × NonePass is_delimiter w

get_or-length_append : (xs : Bytes) (c : ℕ) (ys : Bytes) → get_or (xs ++ (c ∷ ys)) (length xs) 0 ≡ c
get_or-length_append [] c ys = refl
get_or-length_append (x ∷ xs) c ys = get_or-length_append xs c ys

get_or_at :
    (s xs : Bytes) (c : ℕ) (ys : Bytes) (pos : ℕ)
    → s ≡ xs ++ (c ∷ ys)
    → pos ≡ length xs
    → get_or s pos 0 ≡ c
get_or_at s xs c ys pos e n = rw (e, n) (get_or-length_append xs c ys)

regroup : (s pre w ds ys : Bytes) → s ≡ pre ++ (w ++ (ds ++ ys)) → s ≡ (pre ++ (w ++ ds)) ++ ys
regroup s pre w ds ys e =
    e ∙ ap (◌++◌ pre) (sym (append_assoc w ds ys)) ∙ sym (append_assoc pre (w ++ ds) ys)

length_regroup : (pre w ds : Bytes) → length (pre ++ (w ++ ds)) ≡ length pre + length w + length ds
length_regroup pre w ds = omega (arith, length-append pre (w ++ ds), length-append w ds)

-- The last word.
round_last :
    (value pre w : Bytes)
    → value ≡ pre ++ w
    → NonePass is_delimiter w
    → round value (length pre) ≡ (w, none)
unfolding round
round_last value pre w e n =
    rw
      (
        round,
        find_if_suffix is_delimiter value pre w (length pre) e refl,
        find_from-none is_delimiter (length pre) w n,
        e,
        drop-length_append pre w,
      )
      refl

-- A word with another behind it.
round_more :
    (value pre w : Bytes) (c : ℕ) (rest : Bytes)
    → value ≡ pre ++ (w ++ (b',' ∷ b' ' ∷ c ∷ rest))
    → NonePass is_delimiter w
    → is_delimiter c ≡ false
    → round value (length pre) ≡ (w, some (length pre + length w + 2))
unfolding round after_comma after_newline
round_more value pre w c rest e n h =
    let stop = length pre + length w in
    let found : find_if is_delimiter value (length pre) ≡ some stop =
      find_if_suffix is_delimiter value pre (w ++ (b',' ∷ b' ' ∷ c ∷ rest)) (length pre) e refl
      ∙ find_from_first is_delimiter (length pre) w b',' (b' ' ∷ c ∷ rest) n refl in
    let word : substr value (length pre) (stop - length pre) ≡ w =
      substr_middle value pre w (b',' ∷ b' ' ∷ c ∷ rest) (length pre) (stop - length pre) e refl
        (omega arith) in
    let sep = pre ++ (w ++ (b',' ∷ [])) in
    let lead = pre ++ (w ++ (b',' ∷ b' ' ∷ [])) in
    let next : find_not_space value (stop + 1) ≡ some (stop + 2) =
      find_if_suffix _ value sep (b' ' ∷ c ∷ rest) (stop + 1)
        (regroup value pre w (b',' ∷ []) (b' ' ∷ c ∷ rest) e)
        (sym (length_regroup pre w (b',' ∷ [])))
      ∙ find_from_first _ (stop + 1) (b' ' ∷ []) c rest (refl, tt) (ground (arith, h))
      ∙ ap some (omega arith) in
    let comma : get_or value stop 0 ≡ b',' =
      get_or_at value (pre ++ (w ++ [])) b',' (b' ' ∷ c ∷ rest) stop
        (regroup value pre w [] (b',' ∷ b' ' ∷ c ∷ rest) e)
        (omega (arith, length_regroup pre w [])) in
    let head : get_or value (stop + 2) 0 ≡ c =
      get_or_at value lead c rest (stop + 2) (regroup value pre w (b',' ∷ b' ' ∷ []) (c ∷ rest) e)
        (sym (length_regroup pre w (b',' ∷ b' ' ∷ []))) in
    rw (round, found, word, next, after_comma, after_newline, comma, head) (ground (arith, h))

inside :
    (value pre : Bytes) (c : ℕ) (rest : Bytes)
    → value ≡ pre ++ (c ∷ rest)
    → ltb (length pre) (length value) ≡ true
inside value pre c rest e =
    let long : length value ≡ length pre + suc (length rest) =
      ap length e ∙ length-append pre (c ∷ rest) in
    ground (arith, long)

loop_words :
    (fuel : ℕ) (value pre w : Bytes) (ws : List Bytes)
    → value ≡ pre ++ (w ++ more ws)
    → IsWord w
    → All IsWord ws
    → suc (length ws) < fuel
    → loop fuel value (some (length pre)) ≡ some (w ∷ ws)
unfolding loop more
loop_words zero value pre w ws e i is h = absurd (omega arith)
loop_words (suc zero) value pre w ws e i is h = absurd (omega arith)
loop_words (suc fuel) value pre [] ws e i is h = absurd (i.0 refl)
loop_words (suc (suc fuel)) value pre (c ∷ w) [] e i is h =
    let e' : value ≡ pre ++ (c ∷ w) = e ∙ ap (λ s. pre ++ (c ∷ s)) (append-nil w) in
    rw (loop, round_last value pre (c ∷ w) e' i.1, inside value pre c w e') refl
loop_words (suc fuel) value pre (c ∷ w) ([] ∷ ws) e i is h = absurd (is.0.0 refl)
loop_words (suc fuel) value pre (c ∷ w) ((d ∷ v) ∷ ws) e i is h =
    let lead = pre ++ (c ∷ w ++ (b',' ∷ b' ' ∷ [])) in
    let rest = d ∷ v ++ more ws in
    let behind : length pre + length (c ∷ w) + 2 ≡ length lead =
      sym (length_regroup pre (c ∷ w) (b',' ∷ b' ' ∷ [])) in
    rw
      (
        loop,
        round_more value pre (c ∷ w) d (v ++ more ws) e i.1 is.0.1.0,
        inside value pre c (w ++ (b',' ∷ b' ' ∷ rest)) e,
        behind,
        loop_words fuel value lead (d ∷ v) ws (regroup value pre (c ∷ w) (b',' ∷ b' ' ∷ []) rest e)
            is.0 is.1 (omega arith),
      )
      refl

length-more : (ws : List Bytes) → length ws ≤ length (more ws)
unfolding more
length-more [] = omega arith
length-more (w ∷ ws) = omega (arith, length-more ws, length-append w (more ws))

-- Words that have a byte, and no space, comma or newline in them, are read back from their text.
pub from_string-to_string :
    (words : List Bytes) → All IsWord words → from_string (to_string words) ≡ some words
unfolding from_string to_string loop find_from
from_string-to_string [] is = refl
from_string-to_string ([] ∷ ws) is = absurd (is.0.0 refl)
from_string-to_string ((c ∷ w) ∷ ws) is =
    let value = c ∷ w ++ more ws in
    let first : find_not_space value 0 ≡ some 0 =
      find_from_first (λ x. not (x == b' ')) 0 [] c (w ++ more ws) tt (ground (arith, is.0.1.0)) in
    rw (from_string, to_string, first)
      (loop_words (length value + 2) value [] (c ∷ w) ws refl is.0 is.1
        (omega (arith, length-more ws, length-append w (more ws))))
