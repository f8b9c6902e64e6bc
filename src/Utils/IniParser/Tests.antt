-- ===== src/Utils/IniParser/Tests.antt =====
-- Runs of the parser on concrete files.
use libhif.Base.{
  ℕ, true, false, zero, suc, List, [], ◌∷◌, ◌≡◌, ◌⊎◌, refl, arith, if◌then◌else◌, some, Bytes,
  codes, bytes_eq, find_from, find_last_from, size_sub,
}
use libhif.Utils.IniParser.{
  ItemType, comment_line, key_val, empty_line, end_of_input, ok, err, text_after_section, IniParser,
  again, returns, consume, init, getline, fetch, drop_bom, trim, comment_or_empty, blank_line,
  text_after, section_line, continuation_line, key_val_line, text_line, body, loop, next,
}
use libhif.Utils.IniParser.Lines.{strip_bom}
use libhif.Utils.IniParser.Input.{Reads, stop, item, Throws, Reads-init, Reads-or-Throws}
use libhif.Utils.IniParser.Values.{one_byte, some_text, body_section}
use libhif.Utils.IniParser.KeyValues.{KeyValLine, body_key_val}

program : Unit {0}
unfolding init getline fetch drop_bom trim comment_or_empty blank_line text_after section_line
    continuation_line key_val_line text_line body loop next bytes_eq find_from find_last_from
    size_sub
program = tt

-- the first items of a file, with the key, the value and the raw text
items : ℕ → IniParser → List (ItemType × Bytes × Bytes × Bytes)
items zero p = []
items (suc n) p = elim (next p) [
  | some (ok (t, q)) ↦ (t, q.key, q.value, q.raw_item) ∷ items n q
  | _ ↦ []
]

file-items :
    items 6 (init (codes "# c\n[main]\nkey = a\n b\n\nk2='q'\n"))
    ≡ (comment_line, [], [], codes "# c\n")
      ∷ (ItemType.section, [], [], codes "[main]\n")
      ∷ (key_val, codes "key", codes "a\nb", codes "key = a\n b\n")
      ∷ (empty_line, codes "key", codes "a\nb", codes "\n")
      ∷ (key_val, codes "k2", codes "q", codes "k2='q'\n")
      ∷ (end_of_input, codes "k2", codes "q", [])
      ∷ []
unfolding items program
file-items = refl

abbrev small : Bytes
small = codes "[s]\n"

small_read : Reads (init small) small
unfolding program
small_read = item {t = ItemType.section} refl (λ e. cc) (stop refl)

Reads-init_example : small ≡ strip_bom small
Reads-init_example = Reads-init small small small_read

Reads-or-Throws_example : ((raws : Bytes) × Reads (init small) raws) ⊎ Throws (init small)
Reads-or-Throws_example = Reads-or-Throws small

-- the state with a line ready, in section "s"
abbrev at_line : Bytes → IniParser
at_line text = record {
  rest = [];
  eof = false;
  line = text;
  line_number = 2;
  line_ready = true;
  section = codes "s";
  key = [];
  value = [];
  raw_item = [];
}

-- one byte of text behind the bracket passes, two do not
body_section_accepts :
    body (at_line (codes "[s]x")) false
    ≡ ok (
        returns ItemType.section
          (consume (record (at_line (codes "[s]x")) { section = codes "s" })))
body_section_accepts =
    body_section (at_line (codes "[s]x")) (codes "s") (codes "x") [] false refl (refl, tt) (λ e. cc)
      (one_byte [] b'x' tt refl) tt

body_section_example : body (at_line (codes "[s] yx ")) false ≡ (
    if true
    then err text_after_section 2
    else ok (
        returns ItemType.section
          (consume (record (at_line (codes "[s] yx ")) { section = codes "s" }))))
body_section_example =
    body_section (at_line (codes "[s] yx ")) (codes "s") (codes " yx") (codes " ") true refl
      (refl, tt) (λ e. cc) (some_text (codes " ") b'y' [] b'x' (refl, tt) refl refl refl) (refl, tt)

pair : KeyValLine (codes "key = a b ") (codes "key") (codes "a b")
pair = record {
  ks = codes "ke";
  l = b'y';
  k = b'k';
  krest = codes "ey";
  vs = codes "a ";
  y = b'b';
  v = b'a';
  vrest = codes " b";
  pad = codes " ";
  lead = codes " ";
  tail = codes " ";
  key_ends = refl;
  key_starts = refl;
  value_ends = refl;
  value_starts = refl;
  line_is = refl;
  key_free = (refl, (refl, (refl, tt)));
  k_space = refl;
  k_comment = refl;
  k_bracket = refl;
  l_blank = refl;
  pad_blank = (refl, tt);
  lead_blank = (refl, tt);
  v_blank = refl;
  y_space = refl;
  tail_space = (refl, tt);
}

body_key_val_example :
    body (at_line (codes "key = a b ")) false
    ≡ ok (
        again true (
          consume
            (record (at_line (codes "key = a b ")) { key = codes "key"; value = codes "a b" })))
body_key_val_example =
    body_key_val (at_line (codes "key = a b ")) (codes "key") (codes "a b") pair (λ e. cc)
      (omega arith)
