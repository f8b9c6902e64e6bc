-- ===== src/Conf/ConfigParser/Read/Tests.antt =====
-- A file that is read and written.
use libhif.Base.{
  [], ◌∷◌, Bytes, codes, ◌≡◌, refl, some, bytes_eq, find_from, find_last_from, size_sub,
}
use libhif.Base.Eq.{bytes_equality}
use libhif.Conf.Decimal.{to_string}
use libhif.Utils.PreserveOrderMap.{find, find_position, at, assign}
use libhif.Utils.IniParser.{
  init, getline, fetch, drop_bom, trim, comment_or_empty, blank_line, text_after, section_line,
  continuation_line, key_val_line, text_line, body, loop, next,
}
use libhif.Utils.IniParser.Lines.{strip_bom}
use libhif.Conf.ConfigParser.{
  ConfigParser, ok, new, has_section, has_option, add_section, set_raw_value, add_comment_line,
  read_item, read_loop, read, write,
}
use libhif.Conf.ConfigParser.Read.RoundTrip.{no_duplicates, write-read}

program : Unit {0}
unfolding init getline fetch drop_bom trim comment_or_empty blank_line text_after section_line
    continuation_line key_val_line text_line body loop next bytes_eq find_from find_last_from
    size_sub find find_position at assign to_string has_section has_option add_section set_raw_value
    add_comment_line read_item read_loop read no_duplicates
program = tt

abbrev file : Bytes
file = codes "# head\n[main]\n# note\nkey = a\n b\n\n[other]\nkey=1\n"

abbrev read_file : ConfigParser
read_file = record {
  contents =
      (
        codes "main",
        (codes "#1", codes "# note\n")
            ∷ (codes "key", codes "a\nb")
            ∷ (codes "#2", codes "\n")
            ∷ [],
      )
      ∷ (codes "other", (codes "key", codes "1") ∷ [])
      ∷ [];
  item_number = 2;
  header = codes "# head\n";
  raw_items =
      (codes "main", codes "[main]\n")
      ∷ (codes "main]key", codes "key = a\n b\n")
      ∷ (codes "other", codes "[other]\n")
      ∷ (codes "other]key", codes "key=1\n")
      ∷ [];
}

reads : read new file ≡ some (ok read_file)
unfolding program
reads = refl

write-read_example : write read_file ≡ strip_bom file
unfolding program
write-read_example = write-read file read_file reads refl
