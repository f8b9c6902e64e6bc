-- ===== src/Utils/IniParser/RawItems.antt =====
-- Every byte of the input, less a byte order mark, ends up in the raw item of exactly one item, and
-- next() always returns.
use libhif.Base.{
  ℕ, zero, suc, ◌+◌, ◌<◌, Bool, true, false, not, ◌||◌, Option, some, [], ◌++◌, ◌≡◌, ◌≢◌, ◌⊎◌, inl,
  inr, refl, ◌∙◌, arith, if◌then◌else◌, length, is_empty, get_or, find_if, append_assoc, Bool-cases,
  Option-cases,
}
use libhif.Utils.IniParser.{
  ItemType, end_of_input, key_val, Error, Result, ok, err, IniParser, is_space, is_comment, Outcome,
  again, returns, fetch, drop_bom, comment_or_empty, blank_line, section_line, continuation_line,
  key_val_line, text_line, body, loop, next, raw_line, trim_value,
}
use libhif.Utils.IniParser.Lines.{unread, Inv, visible, Fetched, fetch-Fetched}

-- What the body of the loop makes of a state `p` with a line ready.
abbrev Follows : IniParser → Bool → Result Outcome → Type 0
Follows p previous (err e n) = Unit
Follows p previous (ok (again previous' q)) =
    (previous' ≡ true)
    × (p.line ≢ [])
    × (q.line_ready ≡ false)
    × (q.rest ≡ p.rest)
    × (q.eof ≡ p.eof)
    × (q.line_number ≡ p.line_number)
    × (q.raw_item ≡ (if previous then p.raw_item else []) ++ raw_line p)
Follows p previous (ok (returns t q)) =
    (q.rest ≡ p.rest)
    × (q.eof ≡ p.eof)
    × (q.line_number ≡ p.line_number)
    × (if previous
        then (t ≡ key_val)
          × (q.line_ready ≡ p.line_ready)
          × (q.line ≡ p.line)
          × (q.raw_item ≡ p.raw_item)
        else ((t ≢ end_of_input)
            × (q.line_ready ≡ false)
            × (q.raw_item ≡ raw_line p)
            × (raw_line p ≢ []))
        ⊎ ((t ≡ end_of_input) × (p.line ≡ []) × (p.eof ≡ true) × (q ≡ p)))

raw_line-ne-nil : (p : IniParser) → p.line ≢ [] → raw_line p ≢ []
raw_line-ne-nil p h = ground arith

module _ (p : IniParser) (previous : Bool) where
  Follows-comment : Follows p previous (ok (comment_or_empty p previous))
  unfolding comment_or_empty
  Follows-comment = ground (arith, raw_line-ne-nil p)

  module _ (filled : p.line ≢ []) where
    Follows-blank : Follows p previous (ok (blank_line p previous))
    unfolding blank_line
    Follows-blank = ground (arith, raw_line-ne-nil p)

    Follows-section :
        (start end : ℕ) → previous ≡ false → Follows p previous (section_line p start end)
    unfolding section_line
    Follows-section start end h = ground (arith, raw_line-ne-nil p)

    Follows-continuation :
        (start end : ℕ) → Follows p previous (continuation_line p previous start end)
    unfolding continuation_line
    Follows-continuation start end = ground arith

    Follows-key_val : (end : ℕ) → previous ≡ false → Follows p previous (key_val_line p end)
    unfolding key_val_line
    Follows-key_val end h = ground arith

    Follows-text : (start end : ℕ) → Follows p previous (text_line p previous start end)
    unfolding text_line
    Follows-text start end = ground (
      arith,
      Follows-section (start + 1) end,
      Follows-continuation start end,
      Follows-key_val end,
    )

  Follows-body : Follows p previous (body p previous)
  unfolding body
  Follows-body = elim (Bool-cases (is_empty p.line || is_comment (get_or p.line 0 0))) [
    | inl short ↦ rw short Follows-comment
    | inr text ↦
        let filled : p.line ≢ [] = ground arith in
        rw text (elim (Option-cases (find_if (λ c. not (is_space c)) p.line 0)) [
          | inl blank ↦ rw (blank, body) (Follows-blank filled)
          | inr (start, found) ↦ rw (found, body) (Follows-text filled start _)
        ])
  ]

-- Rounds that the loop may still need.
abbrev rounds : IniParser → ℕ
rounds p = length p.rest + (if p.line_ready then 1 else 0)

-- the raw item under construction, between two rounds
abbrev IsBuilding : IniParser → Bool → Type 0
IsBuilding p true = (p.raw_item ≢ []) × (p.line_ready ≡ false) × (p.line_number ≢ 0)
IsBuilding p false = p.raw_item ≡ []

-- One call of next() from `p` gave an item of type `t` and the state `q`.
pub record Took (p : IniParser) (t : ItemType) (q : IniParser) : Type 0 where
  pub inv : Inv q
  pub number : q.line_number ≢ 0
  pub splits : q.raw_item ++ unread q ≡ p.raw_item ++ visible p
  pub at_end : t ≡ end_of_input → (q.raw_item ≡ []) × (unread q ≡ [])
  pub before_end : t ≢ end_of_input → q.raw_item ≢ []

-- The loop throws, or returns an item.
abbrev pub Answers : IniParser → Option (Result (ItemType × IniParser)) → Type 0
Answers p r =
    ((e : Error) × (n : ℕ) × (r ≡ some (err e n)))
    ⊎ ((t : ItemType) × (q : IniParser) × (r ≡ some (ok (t, q))) × Took p t q)

Took-returns :
    (p q r : IniParser) (previous : Bool) (t : ItemType)
    → Inv p
    → IsBuilding p previous
    → Fetched p q
    → Follows q previous (ok (returns t r))
    → Took p t r
Took-returns p q r true t v b f s = record {
  inv = record {
    ends = ground arith;
    numbered = ground arith;
    started = ground arith;
    past_bom = ground arith;
  };
  number = ground arith;
  splits = ground arith;
  at_end = ground arith;
  before_end = ground arith;
}
Took-returns p q r false t v b f (rest_is, eof_is, number_is, inl (go_on, ready, raw, full)) =
    record {
      inv = record {
        ends = ground arith;
        numbered = ground arith;
        started = ground arith;
        past_bom = ground arith;
      };
      number = ground arith;
      splits = ground arith;
      at_end = ground arith;
      before_end = ground arith;
    }
Took-returns p q r false t v b f (rest_is, eof_is, number_is, inr (stop, empty, over, same)) =
    record {
      inv = record {
        ends = ground arith;
        numbered = ground arith;
        started = ground arith;
        past_bom = ground arith;
      };
      number = ground arith;
      splits = ground arith;
      at_end = ground arith;
      before_end = ground arith;
    }

again_Inv :
    (p q r : IniParser) (previous previous' : Bool)
    → IsBuilding p previous
    → Fetched p q
    → Follows q previous (ok (again previous' r))
    → Inv r
      × IsBuilding r true
      × (r.raw_item ++ visible r ≡ p.raw_item ++ visible p)
      × (rounds r < rounds p)
again_Inv p q r true previous' b f s = (
  record {
    ends = ground arith;
    numbered = ground arith;
    started = ground arith;
    past_bom = ground arith;
  },
  (ground arith, ground arith, ground arith),
  ground (arith, append_assoc p.raw_item (raw_line q) q.rest),
  ground arith,
)
again_Inv p q r false previous' b f s = (
  record {
    ends = ground arith;
    numbered = ground arith;
    started = ground arith;
    past_bom = ground arith;
  },
  (ground arith, ground arith, ground arith),
  ground (arith, append_assoc p.raw_item (raw_line q) q.rest),
  ground arith,
)

Took-stop :
    (p : IniParser) (previous : Bool)
    → Inv p
    → IsBuilding p previous
    → (p.line_ready || not p.eof) ≡ false
    → Took p (if previous then key_val else end_of_input) (trim_value p)
Took-stop p true v b h = record {
  inv = record {
    ends = ground arith;
    numbered = ground arith;
    started = ground arith;
    past_bom = ground arith;
  };
  number = ground arith;
  splits = ground arith;
  at_end = ground arith;
  before_end = ground arith;
}
Took-stop p false v b h = record {
  inv = record {
    ends = ground arith;
    numbered = ground arith;
    started = ground arith;
    past_bom = ground arith;
  };
  number = ground arith;
  splits = ground arith;
  at_end = ground arith;
  before_end = ground arith;
}

Answers-again :
    (p r : IniParser) (a : Option (Result (ItemType × IniParser)))
    → r.raw_item ++ visible r ≡ p.raw_item ++ visible p
    → Answers r a
    → Answers p a
Answers-again p r a e (inl thrown) = inl thrown
Answers-again p r a e (inr (t, q, is, took)) = inr (
  t,
  q,
  is,
  record {
    inv = took.inv;
    number = took.number;
    splits = took.splits ∙ e;
    at_end = took.at_end;
    before_end = took.before_end;
  },
)

-- One round of the loop, on what the body made of the line.
round-Answers :
    (fuel : ℕ) (p q : IniParser) (previous : Bool) (o : Result Outcome)
    → Inv p
    → IsBuilding p previous
    → Fetched p q
    → Follows q previous o
    → ((r : IniParser) (next_previous : Bool)
        → Inv r
        → IsBuilding r next_previous
        → rounds r < rounds p
        → Answers r (loop fuel r next_previous))
    → Answers p (elim o [
      | err e n ↦ some (err e n)
      | ok (returns t r) ↦ some (ok (t, r))
      | ok (again next_previous r) ↦ loop fuel r next_previous
    ])
round-Answers fuel p q previous (err e n) v b f s ih = inl (e, n, refl)
round-Answers fuel p q previous (ok (returns t r)) v b f s ih =
    inr (t, r, refl, Took-returns p q r previous t v b f s)
round-Answers fuel p q previous (ok (again next_previous r)) v b f s ih =
    let (v', b', e, less) = again_Inv p q r previous next_previous b f s in
    let b'' : IsBuilding r next_previous = rw s.0 b' in
    Answers-again p r _ e (ih r next_previous v' b'' less)

loop-Answers :
    (fuel : ℕ) (p : IniParser) (previous : Bool)
    → Inv p
    → IsBuilding p previous
    → rounds p < fuel
    → Answers p (loop fuel p previous)
unfolding loop
loop-Answers zero p previous v b h = absurd (omega arith)
loop-Answers (suc fuel) p previous v b h = elim (Bool-cases (p.line_ready || not p.eof)) [
  | inl reading ↦ rw reading (
      round-Answers fuel p (drop_bom (fetch p)) previous _ v b (fetch-Fetched p v)
        (Follows-body (drop_bom (fetch p)) previous)
        (λ r pr v' b' less. loop-Answers fuel r pr v' b' (omega arith)))
  | inr done ↦ rw done (inr (_, _, refl, Took-stop p previous v b done))
]

-- From every state that next() leaves behind, the next call throws or returns an item: its raw
-- text is the next part of the unread input, and is empty only at the end of the input.
pub next-Answers : (p : IniParser) → Inv p → Answers (record p { raw_item = [] }) (next p)
unfolding next
next-Answers p v =
    loop-Answers (length p.rest + 3) (record p { raw_item = [] }) false
      (record { ends = v.ends; numbered = v.numbered; started = v.started; past_bom = v.past_bom })
      refl (ground arith)
