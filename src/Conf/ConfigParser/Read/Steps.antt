-- ===== src/Conf/ConfigParser/Read/Steps.antt =====
-- What each kind of item adds to the contents and to the text written.
use mathlib.Core.Option
use libhif.Base.{
  ℕ, ◌+◌, false, List, [], ◌∷◌, ◌++◌, ◌≡◌, ◌≢◌, inl, inr, refl, sym, ap, ap₂, ◌∙◌, arith, All,
  Bytes, get_or, is_empty, bytes_eq, bytes_eq_iff, append_assoc, append-nil, Option-cases,
  Bool-cases,
}
use libhif.Base.Eq.{bytes_equality}
use libhif.Conf.Decimal.{to_string}
use libhif.Conf.Decimal.Value.{to_string_injective}
use libhif.Utils.IniParser.Names.{NoBracket, IsName, HeadPlain}
use libhif.Utils.PreserveOrderMap.{find, at, assign}
use libhif.Utils.PreserveOrderMap.Laws.{at-assign, assign_new, find-none, keys, holds}
use libhif.Conf.ConfigParser.{
  ConfigParser, KeyValMap, raw_name, has_section, add_section, write_key_val, write_key_vals,
  write_section, write_sections, write,
}
use libhif.Conf.ConfigParser.RawItems.{write_key_vals-assign, raw_name_longer}
use libhif.Conf.ConfigParser.Writes.{
  Untouched, name-Untouched, write_sections-Untouched, write_sections-append, write_key_vals_concat,
}
use libhif.Conf.ConfigParser.Read.{Absent, holds-Absent, Numbered, Reading}

pub All_concat :
    {A : Type 0} (P : A → Type 0) (xs : List A) (y : A) → All P xs → P y → All P (xs ++ (y ∷ []))
All_concat P [] y a p = (p, tt)
All_concat P (x ∷ xs) y a p = (a.0, All_concat P xs y a.1 p)

pub All_init :
    {A : Type 0} (P : A → Type 0) (xs : List A) (y : A) → All P (xs ++ (y ∷ [])) → All P xs × P y
All_init P [] y a = (tt, a.0)
All_init P (x ∷ xs) y a = let (b, p) = All_init P xs y a.1 in ((a.0, b), p)

pub All-Untouched :
    (name section : Bytes) (cs : List (Bytes × KeyValMap))
    → ((s : Bytes) → NoBracket s → bytes_eq section s ≡ false → Untouched name s)
    → All (λ s. NoBracket s.0) cs
    → Absent section cs
    → All (λ s. Untouched name s.0) cs
All-Untouched name section [] f n a = tt
All-Untouched name section ((s, kvs) ∷ cs) f n a =
    (f s n.0 a.0, All-Untouched name section cs f n.1 a.1)

pub is_empty-assign :
    (raw_items : List (Bytes × Bytes)) (name raw : Bytes)
    → is_empty (assign raw_items name raw) ≡ false
unfolding assign
is_empty-assign [] name raw = refl
is_empty-assign (item ∷ raw_items) name raw = ground arith

pub has_section-Absent :
    (c : ConfigParser) (section : Bytes)
    → has_section c section ≡ false
    → Absent section c.contents × (holds (keys c.contents) section ≡ false)
unfolding has_section find
has_section-Absent c section fresh = elim (Option-cases (find c.contents section)) [
  | inl missing ↦
      let free = (find-none 0 c.contents section missing).1 in
      (holds-Absent section c.contents free, free)
  | inr (it, there) ↦ absurd (ground (arith, there, fresh))
]

pub write_sections_new :
    (section raw : Bytes) (raw_items : List (Bytes × Bytes))
    → write_sections (assign raw_items section raw) ((section, []) ∷ []) ≡ raw
unfolding write_sections write_section write_key_vals
write_sections_new section raw raw_items =
    ground
      (arith, at-assign raw_items section section raw, bytes_eq_iff section section, append-nil raw)

pub appended : (header a raw : Bytes) {t : Bytes} → t ≡ a ++ raw → header ++ t ≡ header ++ a ++ raw
appended header a raw e = ap (◌++◌ header) e ∙ sym (append_assoc header a raw)

-- A section that is not there yet.
pub step_section :
    (c : ConfigParser) (old section raw : Bytes)
    → Reading c old
    → IsName section
    → has_section c section ≡ false
    → raw ≢ []
    → Reading (add_section c section raw).0 section
      × (write (add_section c section raw).0 ≡ write c ++ raw)
unfolding add_section write
step_section c old section raw r name fresh filled =
    let (absent, free) = has_section-Absent c section fresh in
    let raws = assign c.raw_items section raw in
    let contents = c.contents ++ ((section, []) ∷ []) in
    let c1 : ConfigParser = record c { raw_items = raws; contents = contents } in
    let same : (add_section c section raw).0 ≡ c1 =
      rw (add_section, fresh) (ground (arith, filled, assign_new c.contents section [] free)) in
    let untouched =
      All-Untouched section section c.contents (λ s m h. name-Untouched section s name.1 h) r.names
        absent in
    let text : write c1 ≡ write c ++ raw =
      appended c.header (write_sections c.raw_items c.contents) raw (
        write_sections-append raws c.contents ((section, []) ∷ [])
        ∙ ap₂ ◌++◌ (write_sections-Untouched section raw c.raw_items c.contents untouched)
            (write_sections_new section raw c.raw_items)) in
    rw same (
      record {
        names = All_concat (λ s. NoBracket s.0) c.contents (section, []) r.names name.1;
        place = inr (
          c.contents,
          [],
          record {
            contents_is = refl;
            absent = absent;
            raws = is_empty-assign c.raw_items section raw;
            filled = ground (arith, name.0);
            numbered = tt;
          },
        );
      },
      text,
    )

-- The open section gets longer and the others stay.
pub last_section :
    (section raw : Bytes) (raws raws' : List (Bytes × Bytes)) (cs : List (Bytes × KeyValMap))
    (kvs kvs' : KeyValMap)
    → write_sections raws' cs ≡ write_sections raws cs
    → write_section section raws' kvs' ≡ write_section section raws kvs ++ raw
    → write_sections raws' (cs ++ ((section, kvs') ∷ []))
      ≡ write_sections raws (cs ++ ((section, kvs) ∷ [])) ++ raw
unfolding write_sections
last_section section raw raws raws' cs kvs kvs' before open_section =
    let old = write_section section raws kvs in
    write_sections-append raws' cs ((section, kvs') ∷ [])
    ∙ ap₂ ◌++◌ before (append-nil (write_section section raws' kvs') ∙ open_section)
    ∙ sym (append_assoc (write_sections raws cs) old raw)
    ∙ ap (λ t. write_sections raws cs ++ t ++ raw) (sym (append-nil old))
    ∙ ap (λ t. t ++ raw) (sym (write_sections-append raws cs ((section, kvs) ∷ [])))

pub write_section_option :
    (section key value raw : Bytes) (raws : List (Bytes × Bytes)) (kvs : KeyValMap)
    → HeadPlain key
    → holds (keys kvs) key ≡ false
    → write_section section (assign raws (raw_name section key) raw) (kvs ++ ((key, value) ∷ []))
      ≡ write_section section raws kvs ++ raw
unfolding write_section write_key_val
write_section_option section key value raw raws kvs plain free =
    let name = raw_name section key in
    let raws' = assign raws name raw in
    let body : write_key_vals section raws' (kvs ++ ((key, value) ∷ []))
        ≡ write_key_vals section raws kvs ++ raw =
      write_key_vals_concat section raws' kvs (key, value)
      ∙ ap₂ ◌++◌ (write_key_vals-assign section key raw raws kvs free)
          (ground (arith, plain, at-assign raws name name raw, bytes_eq_iff name name)) in
    ground (
      arith,
      body,
      at-assign raws name section raw,
      raw_name_longer section key,
      append_assoc (b'[' ∷ (section ++ (b']' ∷ b'\n' ∷ []))) (write_key_vals section raws kvs) raw,
      append_assoc (Option.get_or (at raws section) []) (write_key_vals section raws kvs) raw,
    )

pub write_section_comment :
    (section key raw : Bytes) (raws : List (Bytes × Bytes)) (kvs : KeyValMap)
    → get_or key 0 0 ≡ b'#'
    → write_section section raws (kvs ++ ((key, raw) ∷ [])) ≡ write_section section raws kvs ++ raw
unfolding write_section write_key_val
write_section_comment section key raw raws kvs hash =
    let body : write_key_vals section raws (kvs ++ ((key, raw) ∷ []))
        ≡ write_key_vals section raws kvs ++ raw =
      write_key_vals_concat section raws kvs (key, raw)
      ∙ ap (λ t. write_key_vals section raws kvs ++ t) (ground (arith, hash)) in
    ground (
      arith,
      body,
      append_assoc (b'[' ∷ (section ++ (b']' ∷ b'\n' ∷ []))) (write_key_vals section raws kvs) raw,
      append_assoc (Option.get_or (at raws section) []) (write_key_vals section raws kvs) raw,
    )

pub keys-concat :
    (P : Bytes → Type 0) (kvs : KeyValMap) (key value : Bytes)
    → All P (keys kvs)
    → P key
    → All P (keys (kvs ++ ((key, value) ∷ [])))
keys-concat P [] key value a p = (p, tt)
keys-concat P (kv ∷ kvs) key value a p = (a.0, keys-concat P kvs key value a.1 p)

pub All-Numbered :
    (n : ℕ) (kvs : KeyValMap) → All (Numbered n) (keys kvs) → All (Numbered (n + 1)) (keys kvs)
All-Numbered n [] a = tt
All-Numbered n (kv ∷ kvs) a =
    ((λ h. let (m, low, is) = a.0 h in (m, omega arith, is)), All-Numbered n kvs a.1)

-- The next number was not given out.
pub fresh_comment :
    (n : ℕ) (kvs : KeyValMap)
    → All (Numbered n) (keys kvs)
    → holds (keys kvs) (b'#' ∷ to_string (n + 1)) ≡ false
fresh_comment n [] a = refl
fresh_comment n ((k, v) ∷ kvs) a =
    let key = b'#' ∷ to_string (n + 1) in
    elim (Bool-cases (bytes_eq k key)) [
      | inr apart ↦ ground (arith, apart, fresh_comment n kvs a.1)
      | inl same ↦
          let is_key : k ≡ key = (bytes_eq_iff k key).0 same in
          let (m, low, is) = a.0 (rw is_key refl) in
          let tails : to_string m ≡ to_string (n + 1) = ground (arith, is, is_key) in
          let numbers = to_string_injective m (n + 1) tails in absurd (omega arith)
    ]
