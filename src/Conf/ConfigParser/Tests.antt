-- ===== src/Conf/ConfigParser/Tests.antt =====
-- Runs of the editor on concrete contents.
use libhif.Base.{codes, [], ◌∷◌, ◌≡◌, refl, ◌&&◌, if◌then◌else◌, bytes_eq, find_from}
use libhif.Base.Eq.{bytes_equality}
use libhif.Utils.PreserveOrderMap.{at, assign, erase, find, find_position, erase_position}
use libhif.Conf.ConfigParser.{
  ConfigParser, KeyValMap, ok, err, set_raw_value, set_value, get_value, remove_option, write_one,
  write, create_raw_item, write_section, write_sections, write_key_vals, write_key_val, indent,
}
use libhif.Conf.ConfigParser.Values.{get_value-set_raw_value}
use libhif.Conf.ConfigParser.RawItems.{write_one-set_value_new}

program : Unit {0}
unfolding bytes_eq find_from write_sections find find_position erase_position at assign erase
    create_raw_item write_section write_key_vals write_key_val indent set_raw_value set_value
    get_value remove_option write_one write
program = tt

abbrev main_items : KeyValMap
main_items = (codes "a", codes "1") ∷ (codes "b", codes "2") ∷ []

abbrev parser : ConfigParser
parser = record {
  contents = (codes "main", main_items) ∷ [];
  item_number = 0;
  header = [];
  raw_items =
      (codes "main", codes "[main]\n")
      ∷ (codes "main]a", codes "a = 1\n")
      ∷ (codes "main]b", codes "b=2\n")
      ∷ [];
}

abbrev changed : ConfigParser
changed = record parser {
  contents = (codes "main", (codes "a", codes "7") ∷ (codes "b", codes "2") ∷ []) ∷ [];
  raw_items =
      (codes "main", codes "[main]\n")
      ∷ (codes "main]a", codes "a=7\n")
      ∷ (codes "main]b", codes "b=2\n")
      ∷ [];
}

sets : set_raw_value parser (codes "main") (codes "a") (codes "7") (codes "a=7\n") ≡ ok changed
unfolding program
sets = refl

get_value-set_raw_value_example : get_value changed (codes "main") (codes "b") ≡ (
    if bytes_eq (codes "main") (codes "main") && bytes_eq (codes "a") (codes "b")
    then ok (codes "7")
    else get_value parser (codes "main") (codes "b"))
get_value-set_raw_value_example =
    get_value-set_raw_value parser changed (codes "main") (codes "a") (codes "7") (codes "a=7\n")
      (codes "main") (codes "b") sets

-- the option a set anew keeps its line's layout
set_value_layout :
    elim (set_value parser (codes "main") (codes "a") (codes "9")) [ ok c ↦ write c | err e ↦ [] ]
    ≡ codes "[main]\na = 9\nb=2\n"
unfolding program
set_value_layout = refl

write_one-set_value_new_example :
    (c' : ConfigParser) × (set_value parser (codes "main") (codes "new") (codes "3") ≡ ok c')
    × (write_one c' (codes "main") ≡ write_one parser (codes "main"))
unfolding program
write_one-set_value_new_example =
    write_one-set_value_new parser (codes "main") (codes "new") (codes "3") main_items refl refl
      refl refl refl refl
