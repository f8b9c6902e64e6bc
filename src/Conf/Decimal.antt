-- ===== src/Conf/Decimal.antt =====
-- std::to_string of a number that is not negative.
pub mod Value
use libhif.Base.{ℕ, zero, suc, ◌+◌, ◌/◌, ◌%◌, [], ◌∷◌, ◌++◌, Bytes, ltb, if◌then◌else◌}

digits_of : ℕ → ℕ → Bytes
digits_of zero n = []
digits_of (suc fuel) n =
    let rest = digits_of fuel (n / 10) in
    if ltb n 10 then (b'0' + n) ∷ [] else rest ++ ((b'0' + n % 10) ∷ [])

-- The fuel is enough: every round divides by ten.
unfoldable pub to_string : ℕ → Bytes
unfolding digits_of
to_string n = digits_of (n + 1) n
