-- ===== src/Utils/IniParser/Lines.antt =====
-- What `getline` and the removal of the byte order mark do to the input that is left.
use libhif.Base.{
  ◌+◌, ◌≤◌, Bool, true, false, ◌&&◌, [], ◌∷◌, ◌++◌, Bytes, ◌≡◌, ◌≢◌, ◌⊎◌, inl, inr, refl, sym, ap,
  ◌∙◌, arith, ◌==◌, if◌then◌else◌, length, take, drop, drop-append-le, length-drop, bytes_eq,
  append_assoc, Bool-cases,
}
use libhif.Utils.IniParser.{IniParser, delimiter, utf8_bom, getline, fetch, drop_bom, raw_line}

-- The input not yet consumed, the line that is ready included.
abbrev pub unread : IniParser → Bytes
unread p = if p.line_ready then raw_line p ++ p.rest else p.rest

abbrev pub strip_bom : Bytes → Bytes
strip_bom s = if bytes_eq (take 3 s) utf8_bom then drop 3 s else s

abbrev Joined : Bytes → Bytes × Bytes × Bool → Type 0
Joined s (line, rest, eof) =
    (line ++ ((if eof then [] else delimiter ∷ []) ++ rest) ≡ s)
    × (eof ≡ true → rest ≡ [])
    × (length line + length rest ≤ length s)

getline-Joined : (s : Bytes) → Joined s (getline s)
unfolding getline
getline-Joined [] = ground arith
getline-Joined (c ∷ cs) = elim (Bool-cases (c == delimiter)) [
  | inl here ↦ rw here (ground arith, λ e. cc, omega arith)
  | inr later ↦ let (j, e, n) = getline-Joined cs in rw later (ap (◌∷◌ c) j, e, omega (arith, n))
]

-- The mark holds no delimiter, so it is on the first line or nowhere.
bom_on_line : (s : Bytes) → bytes_eq (take 3 (getline s).0) utf8_bom ≡ bytes_eq (take 3 s) utf8_bom
unfolding getline bytes_eq
bom_on_line [] = refl
bom_on_line (a ∷ []) = ground arith
bom_on_line (a ∷ b ∷ []) = ground arith
bom_on_line (a ∷ b ∷ c ∷ s) = ground arith

-- A line that is ready has a number, and the first line is not kept unless it is empty.
pub record Inv (p : IniParser) : Type 0 where
  pub ends : p.eof ≡ true → p.rest ≡ []
  pub numbered : p.line_ready ≡ true → p.line_number ≢ 0
  pub started : p.eof ≡ true → p.line_number ≢ 0
  pub past_bom : p.line_ready ≡ true → (p.line_number ≢ 1) ⊎ (p.line ≡ [])

-- What the next round reads: the unread input, less a byte order mark at its very start.
abbrev pub visible : IniParser → Bytes
visible p = if p.line_number == 0 then strip_bom (unread p) else unread p

-- The state in which the body of the loop runs.
pub record Fetched (p q : IniParser) : Type 0 where
  pub ready : q.line_ready ≡ true
  pub ends : q.eof ≡ true → q.rest ≡ []
  pub numbered : q.line_number ≢ 0
  pub reads : unread q ≡ visible p
  pub raw_item : q.raw_item ≡ p.raw_item
  pub old_line : p.line_ready ≡ true → (q.rest ≡ p.rest) × (q ≡ p)
  pub counted : p.line_ready ≡ false → q.line_number ≡ p.line_number + 1
  pub new_line : p.line_ready ≡ false → length q.line + length q.rest ≤ length p.rest

length-bom : (line : Bytes) → bytes_eq (take 3 line) utf8_bom ≡ true → 3 ≤ length line
unfolding bytes_eq
length-bom (a ∷ b ∷ c ∷ l) h = omega arith
length-bom _ h = ground arith

fetch_old : (p : IniParser) → p.line_ready ≡ true → fetch p ≡ p
unfolding fetch
fetch_old p h = ground arith

drop_bom_old : (p : IniParser) → (p.line_number ≢ 1) ⊎ (p.line ≡ []) → drop_bom p ≡ p
unfolding drop_bom bytes_eq
drop_bom_old p h = ground arith

Fetched-old : (p : IniParser) → Inv p → p.line_ready ≡ true → Fetched p (drop_bom (fetch p))
Fetched-old p v h =
    rw (fetch_old p h, drop_bom_old p (v.past_bom h))
      (record {
        ready = h;
        ends = v.ends;
        numbered = v.numbered h;
        reads = ground (arith, v.numbered h);
        raw_item = refl;
        old_line = λ _. (refl, refl);
        counted = λ e. cc;
        new_line = λ e. cc;
      })

unread-drop_bom :
    (p : IniParser)
    → p.line_ready ≡ true
    → unread (drop_bom p) ≡ (
        if p.line_number == 1 && bytes_eq (take 3 p.line) utf8_bom
        then drop 3 p.line ++ ((if p.eof then [] else delimiter ∷ []) ++ p.rest)
        else p.line ++ ((if p.eof then [] else delimiter ∷ []) ++ p.rest))
unfolding drop_bom
unread-drop_bom p h = elim (Bool-cases (p.line_number == 1 && bytes_eq (take 3 p.line) utf8_bom)) [
  | inl mark ↦ rw (mark, h, append_assoc)
  | inr none_there ↦ rw (none_there, h, append_assoc)
]

-- the state that `fetch` gives when it reads a line
abbrev with_line : IniParser → IniParser
with_line p = record p {
  line = (getline p.rest).0;
  rest = (getline p.rest).1;
  eof = (getline p.rest).2;
  line_number = p.line_number + 1;
  line_ready = true;
}

fetch_new : (p : IniParser) → p.line_ready ≡ false → fetch p ≡ with_line p
unfolding fetch
fetch_new p h = rw h

unread_new : (p : IniParser) → p.line_ready ≡ false → unread (drop_bom (with_line p)) ≡ visible p
unread_new p h = unread-drop_bom (with_line p) refl ∙ elim (Bool-cases (p.line_number == 0)) [
  | inl first ↦
      let one : (p.line_number + 1 == 1) ≡ true = ground arith in
      rw (first, one, h, ← bom_on_line p.rest)
        (elim (Bool-cases (bytes_eq (take 3 (getline p.rest).0) utf8_bom)) [
          | inl mark ↦ rw mark (
              sym (drop-append-le 3 (getline p.rest).0 _ (length-bom (getline p.rest).0 mark))
              ∙ ap (drop 3) (getline-Joined p.rest).0)
          | inr plain ↦ rw plain (getline-Joined p.rest).0
        ])
  | inr later ↦
      let more : (p.line_number + 1 == 1) ≡ false = ground arith in
      rw (later, more, h) (getline-Joined p.rest).0
]

record SameButLine (p q : IniParser) : Type 0 where
  rest : q.rest ≡ p.rest
  eof : q.eof ≡ p.eof
  line_number : q.line_number ≡ p.line_number
  line_ready : q.line_ready ≡ p.line_ready
  raw_item : q.raw_item ≡ p.raw_item
  shorter : length q.line ≤ length p.line

drop_bom-SameButLine : (p : IniParser) → SameButLine p (drop_bom p)
unfolding drop_bom
drop_bom-SameButLine p = ground (arith, length-drop 3 p.line)

Fetched-new : (p : IniParser) → Inv p → p.line_ready ≡ false → Fetched p (drop_bom (fetch p))
Fetched-new p v h =
    let (j, e, n) = getline-Joined p.rest in
    let same = drop_bom-SameButLine (with_line p) in
    rw (fetch_new p h) (record {
      ready = same.line_ready;
      ends = λ k. same.rest ∙ e (sym same.eof ∙ k);
      numbered = omega (arith, same.line_number);
      reads = unread_new p h;
      raw_item = same.raw_item;
      old_line = λ k. absurd cc;
      counted = λ _. same.line_number;
      new_line = λ _. omega (arith, same.shorter, ap length same.rest);
    })

-- Before each round: the line that the body reads is the next part of the visible input.
pub fetch-Fetched : (p : IniParser) → Inv p → Fetched p (drop_bom (fetch p))
fetch-Fetched p v = elim (Bool-cases p.line_ready) [
  | inl old ↦ Fetched-old p v old
  | inr new ↦ Fetched-new p v new
]
