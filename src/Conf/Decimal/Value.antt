-- ===== src/Conf/Decimal/Value.antt =====
-- Different numbers have different texts.
use libhif.Base.{
  ℕ, zero, suc, ◌+◌, ◌-◌, ◌*◌, ◌/◌, ◌%◌, ◌<◌, [], ◌∷◌, ◌++◌, Bytes, ltb, ◌≡◌, refl, ap, sym, ◌∙◌,
  arith, Bool-cases, inl, inr,
}
use libhif.Conf.Decimal.{digits_of, to_string}

-- The number that decimal digits stand for, read behind another number.
value_from : ℕ → Bytes → ℕ
value_from n [] = n
value_from n (d ∷ ds) = value_from (n * 10 + (d - b'0')) ds

value_from-concat :
    (n : ℕ) (ds : Bytes) (d : ℕ) → value_from n (ds ++ (d ∷ [])) ≡ value_from n ds * 10 + (d - b'0')
unfolding value_from
value_from-concat n [] d = refl
value_from-concat n (c ∷ ds) d = value_from-concat (n * 10 + (c - b'0')) ds d

value_from-digits_of : (fuel n : ℕ) → n < fuel → value_from 0 (digits_of fuel n) ≡ n
unfolding digits_of value_from
value_from-digits_of zero n h = absurd (omega arith)
value_from-digits_of (suc fuel) n h = elim (Bool-cases (ltb n 10)) [
  | inl one ↦ rw one (omega arith)
  | inr more ↦
      let big : 9 < n = ground (arith, more) in
      rw (more, value_from-concat 0 (digits_of fuel (n / 10)) (b'0' + n % 10))
        (omega (arith, value_from-digits_of fuel (n / 10) (omega arith)))
]

-- The digits of a number give the number back.
value_from-to_string : (n : ℕ) → value_from 0 (to_string n) ≡ n
unfolding to_string
value_from-to_string n = value_from-digits_of (n + 1) n (omega arith)

-- Different numbers have different texts.
pub to_string_injective : (m n : ℕ) → to_string m ≡ to_string n → m ≡ n
to_string_injective m n h =
    sym (value_from-to_string m) ∙ ap (value_from 0) h ∙ value_from-to_string n
