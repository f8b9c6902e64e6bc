-- ===== src/Utils/IniParser/Names.antt =====
-- The section and the key that an item carries.
use mathlib.Core.Option
use libhif.Base.{
  ℕ, zero, suc, ◌+◌, ◌-◌, ◌<◌, Bool, true, false, not, ◌||◌, Option, none, some, [], ◌∷◌, Bytes,
  ◌==◌, ◌≡◌, ◌≢◌, refl, arith, length, take, drop, length-drop, is_empty, get_or, find_if,
  find_last_if, find_from, find_from_bounds, find_if_bounds, substr, NonePass, Bool-cases,
  Option-cases, inl, inr,
}
use libhif.Utils.IniParser.{
  ItemType, key_val, Result, ok, err, IniParser, is_space, is_comment, is_blank, Outcome, again,
  returns, fetch, drop_bom, comment_or_empty, blank_line, section_line, continuation_line,
  key_val_line, text_line, body, loop, next,
}

-- What the parser accepts as the name of a section: some bytes, none of them a bracket.
abbrev pub NoBracket : Bytes → Type 0
NoBracket = NonePass (λ c. c == b']')

abbrev pub IsName : Bytes → Type 0
IsName s = (s ≢ []) × NoBracket s

abbrev pub HeadPlain : Bytes → Type 0
HeadPlain key = is_comment (get_or key 0 0) ≡ false

-- Nothing that passes stands before the first position that passes.
take-NonePass :
    (p : ℕ → Bool) (pos : ℕ) (s : Bytes) (i : ℕ)
    → find_from p pos s ≡ some i
    → NonePass p (take (i - pos) s)
unfolding find_from
take-NonePass p pos [] i h = absurd cc
take-NonePass p pos (c ∷ s) i h = elim (Bool-cases (p c)) [
  | inl hit ↦ let here : i - pos ≡ 0 = ground (arith, h, hit) in rw here tt
  | inr miss ↦
      let later : find_from p (pos + 1) s ≡ some i = rw miss at h in
      let (low, high) = find_from_bounds p (pos + 1) s i later in
      let step : i - pos ≡ suc (i - (pos + 1)) = omega arith in
      rw step (miss, take-NonePass p (pos + 1) s i later)
]

take-ne-nil : (n : ℕ) (s : Bytes) → 0 < n → 0 < length s → take n s ≢ []
take-ne-nil zero s h k = absurd (omega arith)
take-ne-nil (suc n) [] h k = absurd (omega arith)
take-ne-nil (suc n) (c ∷ s) h k = λ e. cc

head-take : (n : ℕ) (s : Bytes) → get_or (take (n + 1) s) 0 0 ≡ get_or s 0 0
head-take n s = go (n + 1) s (omega arith)
  where
    go : (m : ℕ) (s : Bytes) → 0 < m → get_or (take m s) 0 0 ≡ get_or s 0 0
    go zero s h = absurd (omega arith)
    go (suc m) [] h = refl
    go (suc m) (c ∷ s) h = refl

abbrev pub Named : IniParser → ItemType → IniParser → Type 0
Named p t q =
    (t ≡ ItemType.section → IsName q.section)
    × (t ≢ ItemType.section → q.section ≡ p.section)
    × (t ≡ key_val → HeadPlain q.key)

abbrev Names : IniParser → Result Outcome → Type 0
Names p (err e n) = Unit
Names p (ok (again previous' q)) = (q.section ≡ p.section) × HeadPlain q.key
Names p (ok (returns t q)) = Named p t q

module _ (p : IniParser) (previous : Bool) (plain : previous ≡ true → HeadPlain p.key) where
  Names-comment : Names p (ok (comment_or_empty p previous))
  unfolding comment_or_empty
  Names-comment = ground arith

  Names-blank : Names p (ok (blank_line p previous))
  unfolding blank_line
  Names-blank = ground arith

  Names-section : (start end : ℕ) → Names p (section_line p start end)
  unfolding section_line
  Names-section start end = elim (Option-cases (find_if (λ c. c == b']') p.line start)) [
    | inl missing ↦ rw (section_line, missing) tt
    | inr (stop, found) ↦ elim (Bool-cases (stop == start)) [
      | inl empty ↦ rw (section_line, found, empty) tt
      | inr filled ↦
          let (low, high) = find_if_bounds (λ c. c == b']') p.line start stop found in
          let longer : 0 < stop - start = ground arith in
          let some_left : 0 < length (drop start p.line) =
            omega (arith, length-drop start p.line) in
          let name : IsName (substr p.line start (stop - start)) = (
            take-ne-nil (stop - start) (drop start p.line) longer some_left,
            take-NonePass (λ c. c == b']') start (drop start p.line) stop found,
          ) in
          rw (section_line, found, filled) (ground (arith, name))
    ]
  ]

  Names-continuation : (start end : ℕ) → Names p (continuation_line p previous start end)
  unfolding continuation_line
  Names-continuation start end = ground arith

  Names-key_val : (end : ℕ) → is_comment (get_or p.line 0 0) ≡ false → Names p (key_val_line p end)
  unfolding key_val_line
  Names-key_val end h = elim (Option-cases (find_if (λ c. c == b'=') p.line 0)) [
    | inl missing ↦ ground (arith, missing)
    | inr (eql_pos, found) ↦
        let last : ℕ =
          Option.get_or (find_last_if (λ c. not (is_blank c)) p.line (eql_pos - 1)) 0 in
        let head = head-take last p.line in ground (arith, found, head)
  ]

  Names-text :
      (start end : ℕ)
      → is_comment (get_or p.line 0 0) ≡ false
      → Names p (text_line p previous start end)
  unfolding text_line
  Names-text start end h =
      ground
        (arith, h, Names-section (start + 1) end, Names-continuation start end, Names-key_val end)

  Names-body : Names p (body p previous)
  unfolding body
  Names-body = elim (Bool-cases (is_empty p.line || is_comment (get_or p.line 0 0))) [
    | inl short ↦ rw short Names-comment
    | inr text ↦
        let plain_line : is_comment (get_or p.line 0 0) ≡ false = ground arith in
        rw text (elim (Option-cases (find_if (λ c. not (is_space c)) p.line 0)) [
          | inl blank ↦ rw (blank, body) Names-blank
          | inr (start, found) ↦ rw (found, body) (Names-text start _ plain_line)
        ])
  ]

fetch-keeps :
    (p : IniParser)
    → ((drop_bom (fetch p)).section ≡ p.section) × ((drop_bom (fetch p)).key ≡ p.key)
unfolding fetch drop_bom
fetch-keeps p = ground arith

abbrev NamedAnswer : IniParser → Option (Result (ItemType × IniParser)) → Type 0
NamedAnswer p none = Unit
NamedAnswer p (some (err e n)) = Unit
NamedAnswer p (some (ok (t, q))) = Named p t q

NamedAnswer-same :
    (p q : IniParser) (a : Option (Result (ItemType × IniParser)))
    → q.section ≡ p.section
    → NamedAnswer q a
    → NamedAnswer p a
NamedAnswer-same p q none e n = tt
NamedAnswer-same p q (some (err x k)) e n = tt
NamedAnswer-same p q (some (ok (t, r))) e n = ground arith

-- One round, on what the body makes of the line.
Named-round :
    (p q : IniParser) (r : Result Outcome)
    (next_round : IniParser → Bool → Option (Result (ItemType × IniParser)))
    → q.section ≡ p.section
    → Names q r
    → ((previous : Bool) (q' : IniParser)
        → HeadPlain q'.key
        → NamedAnswer q' (next_round q' previous))
    → NamedAnswer p (elim r as (λ _. Option (Result (ItemType × IniParser))) [
      | err e n ↦ some (err e n)
      | ok (returns t q') ↦ some (ok (t, q'))
      | ok (again previous' q') ↦ next_round q' previous'
    ])
Named-round p q (err e n) go same names more = tt
Named-round p q (ok (returns t q')) go same names more = ground arith
Named-round p q (ok (again previous q')) go same names more =
    NamedAnswer-same p q' (go q' previous) (ground arith) (more previous q' names.1)

Named-loop :
    (fuel : ℕ) (p : IniParser) (previous : Bool)
    → (previous ≡ true → HeadPlain p.key)
    → NamedAnswer p (loop fuel p previous)
unfolding loop
Named-loop zero p previous plain = tt
Named-loop (suc fuel) p previous plain = elim (Bool-cases (p.line_ready || not p.eof)) [
  | inr over ↦ rw over (ground (arith, plain))
  | inl on ↦
      let q = drop_bom (fetch p) in
      let (section_is, key_is) = fetch-keeps p in
      rw on (
        Named-round p q (body q previous) (λ q' previous'. loop fuel q' previous') section_is
          (Names-body q previous (λ h. rw key_is (plain h)))
          (λ previous' q' plain'. Named-loop fuel q' previous' (λ _. plain')))
]

-- An item of next() has a proper name if it is a section, else the section of the item before, and
-- the key of an option does not look like a comment.
pub next-Named : (p q : IniParser) (t : ItemType) → next p ≡ some (ok (t, q)) → Named p t q
unfolding next
next-Named p q t e =
    let answer =
      Named-loop (length p.rest + 3) (record p { raw_item = [] }) false (λ h. absurd cc) in
    rw e at answer
