-- ===== src/Conf/ConfigParser/RawItems.antt =====
-- set_value without a raw item on a parser that has read a file: a new option is not written.

use libhif.Base.{
  false, none, some, List, [], ◌∷◌, ◌++◌, ◌≡◌, refl, ap, ◌∙◌, arith, Bytes, ◌==◌, get_or, is_empty,
  bytes_eq, bytes_eq_iff, find_from,
}
use libhif.Base.Eq.{bytes_equality}
use libhif.Utils.PreserveOrderMap.{at, assign}
use libhif.Utils.PreserveOrderMap.Laws.{at-assign, assign_new, keys, holds}
use libhif.Conf.ConfigParser.{
  ConfigParser, KeyValMap, ok, raw_name, set_raw_value, set_value, create_raw_item, write_key_val,
  write_key_vals, write_section, write_one,
}

pub raw_name_same :
    (section key other : Bytes)
    → bytes_eq (raw_name section key) (raw_name section other) ≡ bytes_eq key other
unfolding bytes_eq
raw_name_same [] key other = refl
raw_name_same (c ∷ section) key other = ground (arith, raw_name_same section key other)

pub raw_name_longer : (section key : Bytes) → bytes_eq (raw_name section key) section ≡ false
unfolding bytes_eq
raw_name_longer [] key = refl
raw_name_longer (c ∷ section) key = ground (arith, raw_name_longer section key)

module _ (section key raw : Bytes) (raw_items : List (Bytes × Bytes)) where
  -- Other options are written as before.
  pub write_key_vals-assign :
      (key_vals : KeyValMap)
      → holds (keys key_vals) key ≡ false
      → write_key_vals section (assign raw_items (raw_name section key) raw) key_vals
        ≡ write_key_vals section raw_items key_vals
  unfolding write_key_vals write_key_val
  write_key_vals-assign [] h = refl
  write_key_vals-assign ((k, v) ∷ key_vals) h = ground (
    arith,
    at-assign raw_items (raw_name section key) (raw_name section k) raw,
    raw_name_same section key k,
    bytes_eq_iff key k,
    bytes_eq_iff k key,
    write_key_vals-assign key_vals,
  )

pub write_key_vals-append :
    (section : Bytes) (raw_items : List (Bytes × Bytes)) (xs : KeyValMap) (x : Bytes × Bytes)
    → write_key_val section raw_items x ≡ []
    → write_key_vals section raw_items (xs ++ (x ∷ [])) ≡ write_key_vals section raw_items xs
unfolding write_key_vals
write_key_vals-append section raw_items [] x h = rw h
write_key_vals-append section raw_items (y ∷ xs) x h =
    ap (λ s. write_key_val section raw_items y ++ s)
      (write_key_vals-append section raw_items xs x h)

-- An item with an empty raw item is written as nothing.
write_key_val_hidden :
    (section key value : Bytes) (raw_items : List (Bytes × Bytes))
    → get_or key 0 0 == b'#' ≡ false
    → get_or key 0 0 == b';' ≡ false
    → write_key_val section (assign raw_items (raw_name section key) []) (key, value) ≡ []
unfolding write_key_val
write_key_val_hidden section key value raw_items h k = ground (
  arith,
  at-assign raw_items (raw_name section key) (raw_name section key) [],
  bytes_eq_iff (raw_name section key) (raw_name section key),
)

-- On a parser that holds raw items, as it does after reading a file, set_value of a new option
-- (one that is no comment and has no raw item) succeeds, and the text that is then written for the
-- section is the text that was written before: the new option is left out.
pub write_one-set_value_new :
    (c : ConfigParser) (section key value : Bytes) (key_vals : KeyValMap)
    → at c.contents section ≡ some key_vals
    → is_empty c.raw_items ≡ false
    → at c.raw_items (raw_name section key) ≡ none
    → holds (keys key_vals) key ≡ false
    → get_or key 0 0 == b'#' ≡ false
    → get_or key 0 0 == b';' ≡ false
    → (c' : ConfigParser) × (set_value c section key value ≡ ok c')
      × (write_one c' section ≡ write_one c section)
unfolding set_value set_raw_value create_raw_item write_one write_section find_from
write_one-set_value_new c section key value key_vals there raws free new h k =
    let name = raw_name section key in
    let raw_items' = assign c.raw_items name [] in
    let key_vals' = assign key_vals key value in
    let written : write_key_vals section raw_items' key_vals'
        ≡ write_key_vals section c.raw_items key_vals =
      ap (write_key_vals section raw_items') (assign_new key_vals key value new)
      ∙ write_key_vals-append section raw_items' key_vals (key, value)
          (write_key_val_hidden section key value c.raw_items h k)
      ∙ write_key_vals-assign section key [] c.raw_items key_vals new in
    (
      record c { raw_items = raw_items'; contents = assign c.contents section key_vals' },
      rw (set_value, set_raw_value, there, raws, free) refl,
      ground (
        arith,
        there,
        written,
        at-assign c.contents section section key_vals',
        at-assign c.raw_items name section [],
        raw_name_longer section key,
        bytes_eq_iff section section,
      ),
    )
