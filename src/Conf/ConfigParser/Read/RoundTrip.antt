-- ===== src/Conf/ConfigParser/Read/RoundTrip.antt =====
-- read() ends on every input, and write() gives back what read() has read.
use libhif.Base.{
  ℕ, zero, suc, ◌+◌, ◌≤◌, ◌<◌, Bool, true, false, not, ◌&&◌, Option, some, [], ◌++◌, ◌≡◌, ◌≢◌, ◌⊎◌,
  inl, inr, refl, sym, ap, ◌∙◌, arith, Bytes, if◌then◌else◌, length, length-drop, is_empty,
  append_assoc, append-nil,
}
use libhif.Utils.IniParser.{ItemType, comment_line, key_val, empty_line, end_of_input, IniParser}
use libhif.Utils.IniParser as Ini
use libhif.Utils.IniParser.Lines.{strip_bom, Inv, visible}
use libhif.Utils.IniParser.RawItems.{next-Answers}
use libhif.Utils.IniParser.Input.{init-Inv, init-visible, init_section, unread-visible, shorter}
use libhif.Utils.IniParser.Names.{Named, next-Named, HeadPlain}
use libhif.Utils.PreserveOrderMap.{at}
use libhif.Conf.ConfigParser.{
  ConfigParser, Error, Result, ok, err, new, has_section, has_option, set_raw_value, add_section,
  add_comment_line, read_item, read_loop, read, write, write_sections,
}
use libhif.Conf.ConfigParser.Read.{Reading}
use libhif.Conf.ConfigParser.Read.Steps.{step_section}
use libhif.Conf.ConfigParser.Read.Options.{step_option, step_comment}

-- The item does not name a section or an option that was read before.
abbrev pub fresh_item : ConfigParser → ItemType → IniParser → Bool
fresh_item c ItemType.section q = not (has_section c q.section)
fresh_item c key_val q = not (has_option c q.section q.key)
fresh_item c _ q = true

-- No item of the run names a section or an option for a second time.
unfoldable pub no_duplicates : ℕ → ConfigParser → IniParser → Bool
no_duplicates zero c p = true
no_duplicates (suc fuel) c p = elim (Ini.next p) [
  | some (Ini.ok (end_of_input, q)) ↦ true
  | some (Ini.ok (t, q)) ↦ elim (read_item c t q) [
    | err e ↦ true
    | ok c' ↦ let later = no_duplicates fuel c' q in fresh_item c t q && later
  ]
  | _ ↦ true
]

-- the rounds behind an item
abbrev read_on : ℕ → Result ConfigParser → IniParser → Option (Result ConfigParser)
read_on fuel (err e) q = some (err e)
read_on fuel (ok c) q = read_loop fuel c q

abbrev fresh_on : ℕ → ConfigParser → ItemType → Result ConfigParser → IniParser → Bool
fresh_on fuel c t (err e) q = true
fresh_on fuel c t (ok c') q = fresh_item c t q && no_duplicates fuel c' q

module _ (fuel : ℕ) (c : ConfigParser) (p q : IniParser) where
  read_loop-item :
      (t : ItemType)
      → Ini.next p ≡ some (Ini.ok (t, q))
      → t ≢ end_of_input
      → (read_loop (suc fuel) c p ≡ read_on fuel (read_item c t q) q)
        × (no_duplicates (suc fuel) c p ≡ fresh_on fuel c t (read_item c t q) q)
  unfolding read_loop no_duplicates
  read_loop-item end_of_input e more = absurd (more refl)
  read_loop-item comment_line e more = rw (e, read_loop, no_duplicates) (ground arith, ground arith)
  read_loop-item ItemType.section e more =
      rw (e, read_loop, no_duplicates) (ground arith, ground arith)
  read_loop-item key_val e more = rw (e, read_loop, no_duplicates) (ground arith, ground arith)
  read_loop-item empty_line e more = rw (e, read_loop, no_duplicates) (ground arith, ground arith)

  read_loop-end :
      Ini.next p ≡ some (Ini.ok (end_of_input, q)) → read_loop (suc fuel) c p ≡ some (ok c)
  unfolding read_loop
  read_loop-end e = rw (e, read_loop) refl

option_step :
    (c : ConfigParser) (q : IniParser) (c' : ConfigParser)
    → Reading c q.section
    → HeadPlain q.key
    → has_option c q.section q.key ≡ false
    → set_raw_value c q.section q.key q.value q.raw_item ≡ ok c'
    → Reading c' q.section × (write c' ≡ write c ++ q.raw_item)
unfolding set_raw_value at
option_step c q c' r plain fresh e = elim r.place [
  | inl (nothing, outside) ↦ absurd (ground (arith, nothing, e))
  | inr (cs, kvs, o) ↦ step_option c q.section r cs kvs o q.key q.value q.raw_item c' plain fresh e
]

comment_step :
    (c : ConfigParser) (q : IniParser) (c' : ConfigParser)
    → Reading c q.section
    → (if is_empty q.section
        then ok (record c { header = c.header ++ q.raw_item })
        else add_comment_line c q.section q.raw_item)
      ≡ ok c'
    → Reading c' q.section × (write c' ≡ write c ++ q.raw_item)
unfolding write write_sections
comment_step c q c' r e = elim r.place [
  | inr (cs, kvs, o) ↦ step_comment c q.section r cs kvs o q.raw_item c' (rw o.filled at e)
  | inl (nothing, outside) ↦
      let same : record c { header = c.header ++ q.raw_item } ≡ c' = ground (arith, e, outside) in
      rw (← same) (
        record { names = r.names; place = inl (nothing, outside) },
        ground (arith, nothing, append-nil c.header, append-nil (c.header ++ q.raw_item)),
      )
]

-- One item of a run.
step :
    (c c' : ConfigParser) (p q : IniParser) (t : ItemType)
    → Reading c p.section
    → Named p t q
    → q.raw_item ≢ []
    → fresh_item c t q ≡ true
    → t ≢ end_of_input
    → read_item c t q ≡ ok c'
    → Reading c' q.section × (write c' ≡ write c ++ q.raw_item)
unfolding read_item
step c c' p q end_of_input r n raw fresh more e = absurd (more refl)
step c c' p q ItemType.section r n raw fresh more e =
    let same : (add_section c q.section q.raw_item).0 ≡ c' = ground (arith, e) in
    rw (← same)
      (step_section c p.section q.section q.raw_item r (n.0 refl) (ground (arith, fresh)) raw)
step c c' p q key_val r n raw fresh more e =
    let section_is : q.section ≡ p.section = n.1 (λ h. cc) in
    option_step c q c' (rw section_is r) (n.2 refl) (ground (arith, fresh)) e
step c c' p q comment_line r n raw fresh more e =
    let section_is : q.section ≡ p.section = n.1 (λ h. cc) in
    comment_step c q c' (rw section_is r) e
step c c' p q empty_line r n raw fresh more e =
    let section_is : q.section ≡ p.section = n.1 (λ h. cc) in
    comment_step c q c' (rw section_is r) e

at_end_or_not : (t : ItemType) → (t ≡ end_of_input) ⊎ (t ≢ end_of_input)
at_end_or_not end_of_input = inl refl
at_end_or_not _ = inr (λ e. cc)

Result-cases :
    (r : Result ConfigParser) → ((c : ConfigParser) × (r ≡ ok c)) ⊎ ((e : Error) × (r ≡ err e))
Result-cases (ok c) = inl (c, refl)
Result-cases (err e) = inr (e, refl)

loop_writes :
    (fuel : ℕ) (c c' : ConfigParser) (p : IniParser)
    → Reading c p.section
    → Inv p
    → read_loop fuel c p ≡ some (ok c')
    → no_duplicates fuel c p ≡ true
    → write c' ≡ write c ++ visible p
unfolding read_loop
loop_writes zero c c' p r v e d = absurd cc
loop_writes (suc fuel) c c' p r v e d = elim (next-Answers p v) [
  | inl (x, k, thrown) ↦ absurd (ground (arith, thrown, e))
  | inr (t, q, is, took) ↦ elim (at_end_or_not t) [
    | inl end ↦
        let ended = read_loop-end fuel c p q (rw end at is) in
        let same : c ≡ c' = ground (arith, e, ended) in
        let (raw, left) = took.at_end end in
        let nothing : visible p ≡ [] = sym took.splits ∙ rw (raw, left) refl in
        rw (← same, nothing) (sym (append-nil (write c)))
    | inr more ↦
        let (runs, checks) = read_loop-item fuel c p q t is more in
        elim (Result-cases (read_item c t q)) [
          | inr (x, refused) ↦ absurd (ground (arith, e, runs, refused))
          | inl (c1, taken) ↦
              let later : read_loop fuel c1 q ≡ some (ok c') = ground (arith, e, runs, taken) in
              let both : (fresh_item c t q && no_duplicates fuel c1 q) ≡ true =
                ground (arith, d, checks, taken) in
              let (r1, wrote) =
                step c c1 p q t r (next-Named p q t is) (took.before_end more)
                  (ground (arith, both)) more taken in
              loop_writes fuel c1 c' q r1 took.inv later (ground (arith, both))
              ∙ ap (λ w. w ++ visible q) wrote
              ∙ append_assoc (write c) q.raw_item (visible q)
              ∙ ap (◌++◌ (write c))
                  (ap (◌++◌ q.raw_item) (unread-visible q took.number) ∙ took.splits)
        ]
  ]
]

length-strip_bom : (input : Bytes) → length (strip_bom input) ≤ length input
length-strip_bom input = ground (arith, length-drop 3 input)

-- A file in which no section and no option of a section stands twice is written back, byte for
-- byte, by the parser that has read it, but for a byte order mark at its start.
pub write-read :
    (input : Bytes) (c : ConfigParser)
    → read new input ≡ some (ok c)
    → no_duplicates (length input + 2) new (Ini.init input) ≡ true
    → write c ≡ strip_bom input
unfolding read write write_sections
write-read input c e d =
    let start : Reading new (Ini.init input).section = record {
      names = tt;
      place = inl (refl, init_section input);
    } in
    loop_writes (length input + 2) new c (Ini.init input) start (init-Inv input) e d
    ∙ init-visible input

loop_total :
    (fuel : ℕ) (c : ConfigParser) (p : IniParser)
    → Inv p
    → length (visible p) < fuel
    → (r : Result ConfigParser) × (read_loop fuel c p ≡ some r)
unfolding read_loop
loop_total zero c p v h = absurd (omega arith)
loop_total (suc fuel) c p v h = elim (next-Answers p v) [
  | inl (x, k, thrown) ↦ (err (Error.syntax x k), rw (read_loop, thrown) refl)
  | inr (t, q, is, took) ↦ elim (at_end_or_not t) [
    | inl end ↦ (ok c, read_loop-end fuel c p q (rw end at is))
    | inr more ↦
        let (runs, checks) = read_loop-item fuel c p q t is more in
        elim (Result-cases (read_item c t q)) [
          | inr (x, refused) ↦ (err x, runs ∙ rw refused refl)
          | inl (c1, taken) ↦
              let (r, later) =
                loop_total fuel c1 q took.inv (omega (arith, shorter p q t took more)) in
              (r, runs ∙ rw taken later)
        ]
  ]
]

-- Reading ends on every input: with the contents, or with the exception of a line or of an option
-- or a comment that has no section.
pub read_total :
    (c : ConfigParser) (input : Bytes) → (r : Result ConfigParser) × (read c input ≡ some r)
unfolding read
read_total c input =
    loop_total (length input + 2) c (Ini.init input) (init-Inv input)
      (omega (arith, ap length (init-visible input), length-strip_bom input))
