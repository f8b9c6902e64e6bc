-- ===== src/Conf/ConfigParser/Writes.antt =====
-- What is written after an item was read: the text before, and the raw text of the item.
use libhif.Base.{
  false, List, [], ◌∷◌, ◌++◌, ◌≡◌, refl, ap, ◌∙◌, sym, arith, All, Bytes, bytes_eq, append_assoc,
  append-nil,
}
use libhif.Base.Eq.{bytes_equality}
use libhif.Utils.IniParser.Names.{NoBracket}
use libhif.Utils.PreserveOrderMap.{assign}
use libhif.Utils.PreserveOrderMap.Laws.{at-assign}
use libhif.Conf.ConfigParser.{
  KeyValMap, raw_name, write_key_val, write_key_vals, write_section, write_sections,
}

raw_name_apart :
    (section s key k : Bytes)
    → NoBracket section
    → NoBracket s
    → bytes_eq section s ≡ false
    → bytes_eq (raw_name section key) (raw_name s k) ≡ false
unfolding bytes_eq
raw_name_apart [] [] key k n m h = absurd cc
raw_name_apart [] (d ∷ s) key k n m h = ground (arith, m.0)
raw_name_apart (c ∷ section) [] key k n m h = ground (arith, n.0)
raw_name_apart (c ∷ section) (d ∷ s) key k n m h =
    ground (arith, raw_name_apart section s key k n.1 m.1)

raw_name-NoBracket :
    (section key s : Bytes)
    → NoBracket s
    → (bytes_eq (raw_name section key) s ≡ false) × (bytes_eq s (raw_name section key) ≡ false)
unfolding bytes_eq
raw_name-NoBracket [] key [] n = (refl, refl)
raw_name-NoBracket [] key (d ∷ s) n = ground (arith, n.0)
raw_name-NoBracket (c ∷ section) key [] n = (refl, refl)
raw_name-NoBracket (c ∷ section) key (d ∷ s) n =
    ground (arith, raw_name-NoBracket section key s n.1)

-- A name under which no text of the section is looked up.
abbrev pub Untouched : Bytes → Bytes → Type 0
Untouched name s = (bytes_eq name s ≡ false) × ((k : Bytes) → bytes_eq name (raw_name s k) ≡ false)

pub raw_name-Untouched :
    (section key s : Bytes)
    → NoBracket section
    → NoBracket s
    → bytes_eq section s ≡ false
    → Untouched (raw_name section key) s
raw_name-Untouched section key s n m h =
    ((raw_name-NoBracket section key s m).0, λ k. raw_name_apart section s key k n m h)

pub name-Untouched :
    (section s : Bytes) → NoBracket section → bytes_eq section s ≡ false → Untouched section s
name-Untouched section s n h = (h, λ k. (raw_name-NoBracket s k section n).1)

module _ (name raw : Bytes) (raw_items : List (Bytes × Bytes)) where
  write_key_vals-Untouched :
      (s : Bytes) (key_vals : KeyValMap)
      → Untouched name s
      → write_key_vals s (assign raw_items name raw) key_vals ≡ write_key_vals s raw_items key_vals
  unfolding write_key_vals write_key_val
  write_key_vals-Untouched s [] u = refl
  write_key_vals-Untouched s ((k, v) ∷ key_vals) u = ground (
    arith,
    at-assign raw_items name (raw_name s k) raw,
    u.1 k,
    write_key_vals-Untouched s key_vals u,
  )

  pub write_sections-Untouched :
      (sections : List (Bytes × KeyValMap))
      → All (λ s. Untouched name s.0) sections
      → write_sections (assign raw_items name raw) sections ≡ write_sections raw_items sections
  unfolding write_sections write_section
  write_sections-Untouched [] u = refl
  write_sections-Untouched ((s, key_vals) ∷ sections) u = ground (
    arith,
    at-assign raw_items name s raw,
    u.0.0,
    write_key_vals-Untouched s key_vals u.0,
    write_sections-Untouched sections u.1,
  )

pub write_sections-append :
    (raw_items : List (Bytes × Bytes)) (xs ys : List (Bytes × KeyValMap))
    → write_sections raw_items (xs ++ ys)
      ≡ write_sections raw_items xs ++ write_sections raw_items ys
unfolding write_sections
write_sections-append raw_items [] ys = refl
write_sections-append raw_items (x ∷ xs) ys =
    ap (λ t. write_section x.0 raw_items x.1 ++ t) (write_sections-append raw_items xs ys)
    ∙ sym (
        append_assoc (write_section x.0 raw_items x.1) (write_sections raw_items xs)
          (write_sections raw_items ys))

pub write_key_vals_concat :
    (section : Bytes) (raw_items : List (Bytes × Bytes)) (xs : KeyValMap) (x : Bytes × Bytes)
    → write_key_vals section raw_items (xs ++ (x ∷ []))
      ≡ write_key_vals section raw_items xs ++ write_key_val section raw_items x
unfolding write_key_vals
write_key_vals_concat section raw_items [] x = append-nil (write_key_val section raw_items x)
write_key_vals_concat section raw_items (y ∷ xs) x =
    ap (λ t. write_key_val section raw_items y ++ t) (write_key_vals_concat section raw_items xs x)
    ∙ sym (
        append_assoc (write_key_val section raw_items y) (write_key_vals section raw_items xs)
          (write_key_val section raw_items x))
