-- ===== src/Conf/ConfigParser/Read/Options.antt =====
-- What an option or a comment adds to the open section, and a comment before the first section.
use libhif.Base.{
  ◌+◌, false, some, List, [], ◌∷◌, ◌++◌, ◌≡◌, inl, inr, refl, sym, ap, ◌∙◌, arith, All, Bytes,
  Option-cases,
}
use libhif.Base.Eq.{bytes_equality}
use libhif.Conf.Decimal.{to_string}
use libhif.Utils.IniParser.Names.{NoBracket, HeadPlain}
use libhif.Utils.PreserveOrderMap.{find, at, assign}
use libhif.Utils.PreserveOrderMap.Laws.{assign_new, find-none, keys, holds}
use libhif.Conf.ConfigParser.{
  ConfigParser, KeyValMap, ok, raw_name, has_option, set_raw_value, add_comment_line,
  write_sections, write,
}
use libhif.Conf.ConfigParser.Writes.{raw_name-Untouched, write_sections-Untouched}
use libhif.Conf.ConfigParser.Read.{at_last, assign_last, Numbered, Open, Reading}
use libhif.Conf.ConfigParser.Read.Steps.{
  All_concat, All_init, All-Untouched, is_empty-assign, appended, last_section,
  write_section_option, write_section_comment, keys-concat, All-Numbered, fresh_comment,
}

has_option-holds :
    (c : ConfigParser) (section key : Bytes) (kvs : KeyValMap)
    → at c.contents section ≡ some kvs
    → has_option c section key ≡ false
    → holds (keys kvs) key ≡ false
unfolding has_option find
has_option-holds c section key kvs there fresh = elim (Option-cases (find kvs key)) [
  | inl missing ↦ (find-none 0 kvs key missing).1
  | inr (it, found) ↦ absurd (ground (arith, there, found, fresh))
]

module _ (c : ConfigParser) (section : Bytes) (r : Reading c section)
    (cs : List (Bytes × KeyValMap)) (kvs : KeyValMap) (o : Open c section cs kvs) where
  there : at c.contents section ≡ some kvs
  there = rw o.contents_is (at_last section kvs cs o.absent)

  set_last :
      (key value : Bytes)
      → holds (keys kvs) key ≡ false
      → assign c.contents section (assign kvs key value)
        ≡ cs ++ ((section, kvs ++ ((key, value) ∷ [])) ∷ [])
  set_last key value free =
      ap (assign c.contents section) (assign_new kvs key value free)
      ∙ ap (λ t. assign t section (kvs ++ ((key, value) ∷ []))) o.contents_is
      ∙ assign_last section kvs cs (kvs ++ ((key, value) ∷ [])) o.absent

  split : All (λ s. NoBracket s.0) cs × NoBracket section
  split = All_init (λ s. NoBracket s.0) cs (section, kvs) (rw o.contents_is at r.names)

  -- When the header stays, what the sections gain is what the text gains.
  written :
      (c1 : ConfigParser) (raw : Bytes)
      → c1.header ≡ c.header
      → write_sections c1.raw_items c1.contents
        ≡ write_sections c.raw_items (cs ++ ((section, kvs) ∷ [])) ++ raw
      → write c1 ≡ write c ++ raw
  unfolding write
  written c1 raw h e = rw h (
      appended c.header (write_sections c.raw_items c.contents) raw
        (e ∙ ap (λ t. write_sections c.raw_items t ++ raw) (sym o.contents_is)))

  pub step_option :
      (key value raw : Bytes) (c' : ConfigParser)
      → HeadPlain key
      → has_option c section key ≡ false
      → set_raw_value c section key value raw ≡ ok c'
      → Reading c' section × (write c' ≡ write c ++ raw)
  unfolding set_raw_value
  step_option key value raw c' plain fresh h =
      let free = has_option-holds c section key kvs there fresh in
      let name = raw_name section key in
      let raws = assign c.raw_items name raw in
      let kvs' = kvs ++ ((key, value) ∷ []) in
      let contents = cs ++ ((section, kvs') ∷ []) in
      let c1 : ConfigParser = record c { raw_items = raws; contents = contents } in
      let taken : set_raw_value c section key value raw ≡ ok c1 =
        rw (set_raw_value, there, o.raws, set_last key value free) refl in
      let same : c1 ≡ c' = ground (arith, h, taken) in
      let untouched =
        All-Untouched name section cs
          (λ s n apart. raw_name-Untouched section key s split.1 n apart) split.0 o.absent in
      rw (← same) (
        record {
          names = All_concat (λ s. NoBracket s.0) cs (section, kvs') split.0 split.1;
          place = inr (
            cs,
            kvs',
            record {
              contents_is = refl;
              absent = o.absent;
              raws = is_empty-assign c.raw_items name raw;
              filled = o.filled;
              numbered =
                  keys-concat (Numbered c.item_number) kvs key value o.numbered
                    (λ hash. absurd (ground (arith, hash, plain)));
            },
          );
        },
        written c1 raw refl (
            last_section section raw c.raw_items raws cs kvs kvs'
              (write_sections-Untouched name raw c.raw_items cs untouched)
              (write_section_option section key value raw c.raw_items kvs plain free)),
      )

  pub step_comment :
      (raw : Bytes) (c' : ConfigParser)
      → add_comment_line c section raw ≡ ok c'
      → Reading c' section × (write c' ≡ write c ++ raw)
  unfolding add_comment_line
  step_comment raw c' h =
      let key = b'#' ∷ to_string (c.item_number + 1) in
      let free = fresh_comment c.item_number kvs o.numbered in
      let kvs' = kvs ++ ((key, raw) ∷ []) in
      let contents = cs ++ ((section, kvs') ∷ []) in
      let c1 : ConfigParser = record c { item_number = c.item_number + 1; contents = contents } in
      let taken : add_comment_line c section raw ≡ ok c1 =
        rw (add_comment_line, there, set_last key raw free) refl in
      let same : c1 ≡ c' = ground (arith, h, taken) in
      rw (← same) (
        record {
          names = All_concat (λ s. NoBracket s.0) cs (section, kvs') split.0 split.1;
          place = inr (
            cs,
            kvs',
            record {
              contents_is = refl;
              absent = o.absent;
              raws = o.raws;
              filled = o.filled;
              numbered =
                  keys-concat (Numbered (c.item_number + 1)) kvs key raw
                    (All-Numbered c.item_number kvs o.numbered)
                    (λ hash. (c.item_number + 1, omega arith, refl));
            },
          );
        },
        written c1 raw refl (
            last_section section raw c.raw_items c.raw_items cs kvs kvs' refl
              (write_section_comment section key raw c.raw_items kvs refl)),
      )
