-- ===== src/Utils/IniParser/Values.antt =====
-- What the body of the loop reads from a section line and from a line with a key and a value.
use libhif.Base.{
  ℕ, ◌+◌, ◌-◌, false, not, ◌||◌, some, [], ◌∷◌, ◌++◌, Bytes, ◌≡◌, ◌≢◌, refl, sym, ap, ◌∙◌, arith,
  ◌==◌, if◌then◌else◌, length, take_all, get_or, is_empty, append_assoc, append-nil, Bool, true,
  length-append, AllPass, NonePass, find_if, find_last_if, find_from, find_from_first,
  find_last_from_last, substr, substr_middle, NonePass-not,
}
use libhif.Utils.IniParser.{
  ItemType, text_after_section, ok, err, IniParser, returns, is_space, is_comment, consume,
  text_after, section_line, text_line, body,
}

-- the last byte that is no space
pub last_text :
    (xs : Bytes) (x : ℕ) (tail : Bytes)
    → is_space x ≡ false
    → AllPass is_space tail
    → find_last_if (λ c. not (is_space c)) (xs ++ (x ∷ tail)) (length (xs ++ (x ∷ tail)))
      ≡ some (length xs)
last_text xs x tail h a =
    rw (take_all (length (xs ++ (x ∷ tail)) + 1) (xs ++ (x ∷ tail)) (omega arith)) (
      find_last_from_last (λ c. not (is_space c)) 0 xs x tail (ap not h)
        (NonePass-not is_space tail a)
      ∙ ap some (omega arith))

section_scan :
    (p : IniParser) (name mid : Bytes) (x : ℕ) (tail : Bytes)
    → p.line ≡ b'[' ∷ (name ++ (b']' ∷ (mid ++ (x ∷ tail))))
    → NonePass (λ c. c == b']') name
    → name ≢ []
    → section_line p 1 (length name + length mid + 2) ≡ (
        if text_after mid
        then err text_after_section p.line_number
        else ok (returns ItemType.section (consume (record p { section = name }))))
unfolding section_line
section_scan p name mid x tail e n f = rw (found, section_line, named, mid_is, name_is) refl
  where
    rest : Bytes
    rest = mid ++ (x ∷ tail)

    found : find_if (λ c. c == b']') p.line 1 ≡ some (1 + length name)
    found = rw e (find_from_first (λ c. c == b']') 1 name b']' rest n refl)

    mid_is :
        substr p.line (1 + length name + 1) (length name + length mid + 2 - (1 + length name + 1))
        ≡ mid
    mid_is =
        substr_middle p.line (b'[' ∷ (name ++ (b']' ∷ []))) mid (x ∷ tail) _ _
          (e ∙ ap (◌∷◌ b'[') (sym (append_assoc name (b']' ∷ []) rest)))
          (omega (arith, length-append name (b']' ∷ []))) (omega arith)

    name_is : substr p.line 1 (1 + length name - 1) ≡ name
    name_is = substr_middle p.line (b'[' ∷ []) name (b']' ∷ rest) _ _ e refl (omega arith)

    named : (1 + length name == 1) ≡ false
    named = ground arith

text_after-blanks :
    (blanks rest : Bytes) → AllPass is_space blanks → text_after (blanks ++ rest) ≡ text_after rest
unfolding text_after
text_after-blanks [] rest a = refl
text_after-blanks (c ∷ blanks) rest a = ground (arith, a.0, text_after-blanks blanks rest a.1)

-- a line that opens a bracket, by the place of its last byte that is no space
opens :
    (p : IniParser) (rest : Bytes) (end : ℕ)
    → p.line ≡ b'[' ∷ rest
    → find_last_if (λ c. not (is_space c)) p.line (length p.line) ≡ some end
    → body p false ≡ section_line p 1 end
unfolding body text_line find_from
opens p rest end e end_is = rw (filled, first, end_is, body, text_line, head_is) refl
  where
    filled : (is_empty p.line || is_comment (get_or p.line 0 0)) ≡ false
    filled = rw e

    first : find_if (λ c. not (is_space c)) p.line 0 ≡ some 0
    first = rw e

    head_is : get_or p.line 0 0 ≡ b'['
    head_is = rw e

-- the section line with bytes behind its bracket, the last of which is `x`
with_last :
    (p : IniParser) (name mid : Bytes) (x : ℕ) (tail : Bytes)
    → p.line ≡ b'[' ∷ (name ++ (b']' ∷ (mid ++ (x ∷ tail))))
    → NonePass (λ c. c == b']') name
    → name ≢ []
    → is_space x ≡ false
    → AllPass is_space tail
    → body p false ≡ (
        if text_after mid
        then err text_after_section p.line_number
        else ok (returns ItemType.section (consume (record p { section = name }))))
with_last p name mid x tail e n f h a =
    opens p (name ++ (b']' ∷ (mid ++ (x ∷ tail)))) (length name + length mid + 2) e end_is
    ∙ section_scan p name mid x tail e n f
  where
    before : Bytes
    before = b'[' ∷ (name ++ (b']' ∷ mid))

    end_is :
        find_last_if (λ c. not (is_space c)) p.line (length p.line)
        ≡ some (length name + length mid + 2)
    end_is =
        let e' : p.line ≡ before ++ (x ∷ tail) =
          e ∙ ap (◌∷◌ b'[') (sym (append_assoc name (b']' ∷ mid) (x ∷ tail))) in
        let last : find_last_if (λ c. not (is_space c)) p.line (length p.line)
            ≡ some (length before) =
          rw e' (last_text before x tail h a) in
        last ∙ ap some (omega (arith, length-append name (b']' ∷ mid)))

-- nothing but spaces behind the bracket
with_nothing :
    (p : IniParser) (name tail : Bytes)
    → p.line ≡ b'[' ∷ (name ++ (b']' ∷ tail))
    → NonePass (λ c. c == b']') name
    → name ≢ []
    → AllPass is_space tail
    → body p false ≡ ok (returns ItemType.section (consume (record p { section = name })))
unfolding section_line text_after
with_nothing p name tail e n f a =
    opens p (name ++ (b']' ∷ tail)) (length name + 1) e end_is
    ∙ rw (section_line, found, named, none_behind, name_is) refl
  where
    found : find_if (λ c. c == b']') p.line 1 ≡ some (1 + length name)
    found = rw e (find_from_first (λ c. c == b']') 1 name b']' tail n refl)

    name_is : substr p.line 1 (1 + length name - 1) ≡ name
    name_is = substr_middle p.line (b'[' ∷ []) name (b']' ∷ tail) _ _ e refl (omega arith)

    named : (1 + length name == 1) ≡ false
    named = ground arith

    none_behind : length name + 1 - (1 + length name + 1) ≡ 0
    none_behind = omega arith

    end_is : find_last_if (λ c. not (is_space c)) p.line (length p.line) ≡ some (length name + 1)
    end_is =
        let last : find_last_if (λ c. not (is_space c)) p.line (length p.line)
            ≡ some (length (b'[' ∷ name)) =
          rw e (last_text (b'[' ∷ name) b']' tail refl a) in
        last ∙ ap some (omega arith)

-- The bytes behind a section's bracket, but for spaces at the end of the line, and whether they are
-- refused as text.
pub data Behind : Bytes → Bool → Type 0 where
  nothing : Behind [] false
  one_byte :
      (blanks : Bytes) (x : ℕ)
      → AllPass is_space blanks
      → is_space x ≡ false
      → Behind (blanks ++ (x ∷ [])) false
  comment :
      (blanks : Bytes) (c : ℕ) (cs : Bytes) (x : ℕ)
      → AllPass is_space blanks
      → is_comment c ≡ true
      → is_space x ≡ false
      → Behind (blanks ++ (c ∷ (cs ++ (x ∷ [])))) false
  some_text :
      (blanks : Bytes) (c : ℕ) (cs : Bytes) (x : ℕ)
      → AllPass is_space blanks
      → is_comment c ≡ false
      → is_space c ≡ false
      → is_space x ≡ false
      → Behind (blanks ++ (c ∷ (cs ++ (x ∷ [])))) true

up_to :
    (p : IniParser) (name blanks : Bytes) (c : ℕ) (cs : Bytes) (x : ℕ) (tail : Bytes)
    → b'[' ∷ (name ++ (b']' ∷ ((blanks ++ (c ∷ (cs ++ (x ∷ [])))) ++ tail)))
      ≡ b'[' ∷ (name ++ (b']' ∷ ((blanks ++ (c ∷ cs)) ++ (x ∷ tail))))
up_to p name blanks c cs x tail =
    ap (λ l. b'[' ∷ (name ++ (b']' ∷ l)))
      (append_assoc blanks (c ∷ (cs ++ (x ∷ []))) tail
        ∙ ap (λ l. blanks ++ (c ∷ l)) (append_assoc cs (x ∷ []) tail)
        ∙ sym (append_assoc blanks (c ∷ cs) (x ∷ tail)))

-- A section line, read where no key and value is pending, whose name is not empty and holds no closing bracket: it is
-- refused exactly when, behind the bracket and spaces, two bytes or more stand up to the last one that is no space and the first of them does not begin
-- a comment. Nothing, a comment, and any single byte are accepted and dropped, and the section is the name.
pub body_section :
    (p : IniParser) (name behind tail : Bytes) (refused : Bool)
    → p.line ≡ b'[' ∷ (name ++ (b']' ∷ (behind ++ tail)))
    → NonePass (λ c. c == b']') name
    → name ≢ []
    → Behind behind refused
    → AllPass is_space tail
    → body p false ≡ (
        if refused
        then err text_after_section p.line_number
        else ok (returns ItemType.section (consume (record p { section = name }))))
unfolding text_after
body_section p name behind tail refused e n f nothing a = with_nothing p name tail e n f a
body_section p name behind tail refused e n f (one_byte blanks x b h) a =
    let line : p.line ≡ b'[' ∷ (name ++ (b']' ∷ (blanks ++ (x ∷ tail)))) =
      e ∙ ap (λ l. b'[' ∷ (name ++ (b']' ∷ l))) (append_assoc blanks (x ∷ []) tail) in
    let free : text_after blanks ≡ false =
      ap text_after (sym (append-nil blanks)) ∙ text_after-blanks blanks [] b in
    with_last p name blanks x tail line n f h a ∙ rw free refl
body_section p name behind tail refused e n f (comment blanks c cs x b k h) a =
    let found : text_after (blanks ++ (c ∷ cs)) ≡ false =
      text_after-blanks blanks (c ∷ cs) b ∙ rw k refl in
    with_last p name (blanks ++ (c ∷ cs)) x tail (e ∙ up_to p name blanks c cs x tail) n f h a
    ∙ rw found refl
body_section p name behind tail refused e n f (some_text blanks c cs x b k g h) a =
    let found : text_after (blanks ++ (c ∷ cs)) ≡ true =
      text_after-blanks blanks (c ∷ cs) b ∙ rw (k, g) refl in
    with_last p name (blanks ++ (c ∷ cs)) x tail (e ∙ up_to p name blanks c cs x tail) n f h a
    ∙ rw found refl
