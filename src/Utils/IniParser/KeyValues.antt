-- ===== src/Utils/IniParser/KeyValues.antt =====
-- What the body of the loop reads from a line with a key and a value.
use libhif.Base.{
  ℕ, ◌+◌, ◌-◌, ◌<◌, ◌^◌, true, false, not, ◌||◌, some, [], ◌∷◌, ◌++◌, Bytes, ◌≡◌, ◌≢◌, refl, sym,
  ap, ap₂, ◌∙◌, arith, ◌==◌, length, get_or, is_empty, append_assoc, length-append, AllPass,
  NonePass, find_if, find_last_if, find_from, find_last_from, find_from_first, find_from_head,
  find_last_from_last, size_sub_le, substr_middle, find_if_suffix, find_last_if_prefix,
  NonePass-not, NonePass-append,
}
use libhif.Utils.IniParser.{
  ok, IniParser, again, is_blank, is_space, is_comment, consume, key_part, value_part, key_val_line,
  text_line, body,
}
use libhif.Utils.IniParser.Values.{last_text}

-- `line` is a key and a value around a sign, with blanks around it and spaces at the end. The key
-- begins with no space, comment mark or bracket, holds no sign and ends with no blank; the value
-- begins with no blank and ends with no space.
pub record KeyValLine (line key value : Bytes) : Type 0 where
  pub ks : Bytes
  pub l : ℕ
  pub k : ℕ
  pub krest : Bytes
  pub vs : Bytes
  pub y : ℕ
  pub v : ℕ
  pub vrest : Bytes
  pub pad : Bytes
  pub lead : Bytes
  pub tail : Bytes
  pub key_ends : key ≡ ks ++ (l ∷ [])
  pub key_starts : key ≡ k ∷ krest
  pub value_ends : value ≡ vs ++ (y ∷ [])
  pub value_starts : value ≡ v ∷ vrest
  pub line_is : line ≡ key ++ (pad ++ (b'=' ∷ (lead ++ (value ++ tail))))
  pub key_free : NonePass (λ c. c == b'=') key
  pub k_space : is_space k ≡ false
  pub k_comment : is_comment k ≡ false
  pub k_bracket : (k == b'[') ≡ false
  pub l_blank : is_blank l ≡ false
  pub pad_blank : AllPass is_blank pad
  pub lead_blank : AllPass is_blank lead
  pub v_blank : is_blank v ≡ false
  pub y_space : is_space y ≡ false
  pub tail_space : AllPass is_space tail

module _ (line key value : Bytes) (d : KeyValLine line key value) where
  open d use {pad, lead, tail, ks, l, k, krest, vs, y, v, vrest}

  blank_no_sign : (xs : Bytes) → AllPass is_blank xs → NonePass (λ c. c == b'=') xs
  blank_no_sign [] a = tt
  blank_no_sign (x ∷ xs) a = (ground arith, blank_no_sign xs a.1)

  -- the position of the sign
  abbrev sign : ℕ
  sign = length key + length pad

  line_parts : line ≡ (key ++ pad) ++ (b'=' ∷ (lead ++ (value ++ tail)))
  line_parts = d.line_is ∙ sym (append_assoc key pad _)

  sign_found : find_if (λ c. c == b'=') line 0 ≡ some sign
  sign_found =
      rw line_parts (
        find_from_first (λ c. c == b'=') 0 (key ++ pad) b'=' (lead ++ (value ++ tail))
          (NonePass-append _ key pad d.key_free (blank_no_sign pad d.pad_blank)) refl)
      ∙ ap some {x = 0 + length (key ++ pad)} (omega (arith, length-append key pad))

  key_end_found : find_last_if (λ c. not (is_blank c)) line (sign - 1) ≡ some (length ks)
  key_end_found =
      find_last_if_prefix _ line (key ++ pad) _ (sign - 1) line_parts
        (omega (arith, length-append key pad, ap length d.key_starts))
      ∙ ap (find_last_from (λ c. not (is_blank c)) 0)
          (ap (λ s. s ++ pad) d.key_ends ∙ append_assoc ks (l ∷ []) pad)
      ∙ find_last_from_last _ 0 ks l pad (ap not d.l_blank) (NonePass-not is_blank pad d.pad_blank)
      ∙ ap some (omega arith)

  key_read : key_part line sign ≡ key
  key_read = rw key_end_found (
      substr_middle line [] key _ 0 (length ks + 1) d.line_is refl
        (omega (arith, ap length d.key_ends, length-append ks (l ∷ []))))

  value_found : find_if (λ c. not (is_blank c)) line (sign + 1) ≡ some (sign + 1 + length lead)
  value_found =
      find_if_suffix _ line ((key ++ pad) ++ (b'=' ∷ [])) (lead ++ (value ++ tail)) (sign + 1)
        (line_parts ∙ sym (append_assoc (key ++ pad) (b'=' ∷ []) _))
        (omega (arith, length-append (key ++ pad) (b'=' ∷ []), length-append key pad))
      ∙ find_from_head _ (sign + 1) lead (value ++ tail) v (vrest ++ tail)
          (NonePass-not is_blank lead d.lead_blank) (ap (λ s. s ++ tail) d.value_starts)
          (ap not d.v_blank)

  -- the position of the last byte of the value
  abbrev end : ℕ
  end = sign + 1 + length lead + length vs

  end_found : find_last_if (λ c. not (is_space c)) line (length line) ≡ some end
  end_found =
      let before : Bytes = key ++ (pad ++ (b'=' ∷ (lead ++ vs))) in
      let split : line ≡ before ++ (y ∷ tail) =
        d.line_is
        ∙ ap (λ s. key ++ (pad ++ (b'=' ∷ (lead ++ (s ++ tail))))) d.value_ends
        ∙ simp append_assoc in
      let last : find_last_if (λ c. not (is_space c)) line (length line) ≡ some (length before) =
        rw split (last_text before y tail d.y_space d.tail_space) in
      last
      ∙ ap some (
          omega (
            arith,
            length-append key (pad ++ (b'=' ∷ (lead ++ vs))),
            length-append pad (b'=' ∷ (lead ++ vs)),
            length-append lead vs,
          ))

  line_length : length line ≡ end + 1 + length tail
  line_length =
      ap length d.line_is
      ∙ omega (
        arith,
        length-append key (pad ++ (b'=' ∷ (lead ++ (value ++ tail)))),
        length-append pad (b'=' ∷ (lead ++ (value ++ tail))),
        length-append lead (value ++ tail),
        length-append value tail,
        ap length d.value_ends,
        length-append vs (y ∷ []),
      )

  value_read : length line < 2 ^ 64 → value_part line sign end ≡ value
  value_read h =
      rw (value_found, value_part)
        (substr_middle line (key ++ (pad ++ (b'=' ∷ lead))) value tail _ _
          (d.line_is ∙ simp append_assoc)
          (omega (arith, length-append key (pad ++ (b'=' ∷ lead)), length-append pad (b'=' ∷ lead)))
          (size_sub_le (end + 1) (sign + 1 + length lead) (omega arith) (omega (arith, line_length))
            ∙ omega (arith, ap length d.value_ends, length-append vs (y ∷ []))))

  line_starts : line ≡ k ∷ (krest ++ (pad ++ (b'=' ∷ (lead ++ (value ++ tail)))))
  line_starts = d.line_is ∙ ap (λ s. s ++ (pad ++ (b'=' ∷ (lead ++ (value ++ tail))))) d.key_starts

module _ (p : IniParser) (key value : Bytes) (d : KeyValLine p.line key value) where
  key_val_line_reads :
      length p.line < 2 ^ 64
      → key_val_line p (end p.line key value d)
        ≡ ok (again true (consume (record p { key = key; value = value })))
  unfolding key_val_line
  key_val_line_reads h =
      let no_sign : (get_or p.line 0 0 == b'=') ≡ false =
        rw (line_starts p.line key value d) ((rw d.key_starts at d.key_free).0) in
      rw (no_sign, sign_found p.line key value d, key_val_line)
        (ap₂ (λ a b. ok (again true (consume (record p { key = a; value = b }))))
          (key_read p.line key value d) (value_read p.line key value d h))

  text_line_reads :
      p.section ≢ []
      → text_line p false 0 (end p.line key value d) ≡ key_val_line p (end p.line key value d)
  unfolding text_line
  text_line_reads sectioned =
      let head : (get_or p.line 0 0 == b'[') ≡ false =
        rw (line_starts p.line key value d) d.k_bracket in
      let named : is_empty p.section ≡ false = ground arith in rw (head, named)

  body_reads : body p false ≡ text_line p false 0 (end p.line key value d)
  unfolding body find_from
  body_reads =
      let starts = line_starts p.line key value d in
      let long : (is_empty p.line || is_comment (get_or p.line 0 0)) ≡ false =
        rw starts d.k_comment in
      let first : find_if (λ c. not (is_space c)) p.line 0 ≡ some 0 = rw starts (rw d.k_space) in
      rw (long, first, body, end_found p.line key value d)

  -- In a section, a line that begins a new item and holds a key and a value is read as they stand.
  pub body_key_val :
      p.section ≢ []
      → length p.line < 2 ^ 64
      → body p false ≡ ok (again true (consume (record p { key = key; value = value })))
  body_key_val sectioned in_range =
      body_reads ∙ text_line_reads sectioned ∙ key_val_line_reads in_range
