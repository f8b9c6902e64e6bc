-- ===== src/Conf/ConfigParser/Values.antt =====
-- What can be read back after a change of a value.
use libhif.Base.{
  true, ◌&&◌, some, ◌≡◌, arith, Bytes, if◌then◌else◌, bytes_eq, bytes_eq_iff, Option-cases, inl,
  inr,
}
use libhif.Base.Eq.{bytes_equality}
use libhif.Utils.PreserveOrderMap.{at, assign, erase}
use libhif.Utils.PreserveOrderMap.Laws.{at-assign, erase_reads, holds-at, keys, IsUnique}
use libhif.Conf.ConfigParser.{
  ConfigParser, KeyValMap, option_not_found, ok, err, set_raw_value, get_value, remove_option,
}

-- After a successful set_value with a raw item the option has the new value, and every other option of every
-- section reads as before.
pub get_value-set_raw_value :
    (c c' : ConfigParser) (section key value raw other_section other : Bytes)
    → set_raw_value c section key value raw ≡ ok c'
    → get_value c' other_section other ≡ (
        if bytes_eq section other_section && bytes_eq key other
        then ok value
        else get_value c other_section other)
unfolding set_raw_value get_value
get_value-set_raw_value c c' section key value raw other_section other h =
    elim (Option-cases (at c.contents section)) [
      | inl missing ↦ absurd (ground (arith, missing))
      | inr (key_vals, there) ↦ ground (
        arith,
        there,
        at-assign c.contents section other_section (assign key_vals key value),
        at-assign key_vals key other value,
        bytes_eq_iff section other_section,
      )
    ]

-- Removing an option of a section with unique keys that can be read reports true; the option then cannot be found, and every other option
-- reads as before.
pub get_value-remove_option :
    (c : ConfigParser) (section key other_section other value : Bytes) (key_vals : KeyValMap)
    → at c.contents section ≡ some key_vals
    → IsUnique (keys key_vals)
    → get_value c section key ≡ ok value
    → ((remove_option c section key).1 ≡ true)
      × (get_value (remove_option c section key).0 other_section other ≡ (
          if bytes_eq section other_section && bytes_eq key other
          then err option_not_found
          else get_value c other_section other))
unfolding remove_option get_value
get_value-remove_option c section key other_section other value key_vals there u h =
    let (u', n, reads) = erase_reads key_vals key u in
    ground (
      arith,
      there,
      n,
      reads other,
      holds-at key_vals key,
      at-assign c.contents section other_section (erase key_vals key).0,
      bytes_eq_iff section other_section,
    )
