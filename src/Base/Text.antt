-- ===== src/Base/Text.antt =====
-- A std::string is the list of its bytes; positions are native numbers, and npos is `none`.
use Prim.Native.Nat.{ℕ, ◌+◌, ◌-◌, ◌%◌, ◌^◌}
use Prim.Native.Char.{code}
use Prim.Native.String.{String}
use mathlib.Core.Path.{◌≡◌}
use mathlib.Core.Logic.{◌↔◌}
use mathlib.Core.Bool.{Bool, true, false, ◌&&◌}
use mathlib.Core.List.{List, [], ◌∷◌}
use mathlib.Core.Option.{Option, none, some}
use native.Mathlib.Omega.{arith}
use libhif.Base.Tests.{◌==◌, if◌then◌else◌}
use libhif.Base.Lists.{take, drop}

abbrev pub Bytes : Type 0
Bytes = List ℕ

abbrev pub codes : String → Bytes
codes String.[] = []
codes (String.◌∷◌ c s) = code c ∷ codes s

-- `operator==` of std::string
unfoldable pub bytes_eq : Bytes → Bytes → Bool
bytes_eq [] [] = true
bytes_eq (x ∷ xs) (y ∷ ys) = x == y && bytes_eq xs ys
bytes_eq _ _ = false

pub bytes_eq_iff : (a b : Bytes) → (bytes_eq a b ≡ true) ↔ (a ≡ b)
unfolding bytes_eq
bytes_eq_iff (x ∷ a) (y ∷ b) = ground (arith, bytes_eq_iff a b)
bytes_eq_iff _ _ = ground arith

-- `empty()`
abbrev pub is_empty {ℓ} : {A : Type ℓ} → List A → Bool
is_empty [] = true
is_empty (_ ∷ _) = false

-- the position of the first byte that passes, counted from `pos`
unfoldable pub find_from : (ℕ → Bool) → ℕ → Bytes → Option ℕ
find_from p pos [] = none
find_from p pos (c ∷ cs) = if p c then some pos else find_from p (pos + 1) cs

-- the position of the last byte that passes, counted from `pos`
unfoldable pub find_last_from : (ℕ → Bool) → ℕ → Bytes → Option ℕ
find_last_from p pos [] = none
find_last_from p pos (c ∷ cs) = elim (find_last_from p (pos + 1) cs) [
  | some i ↦ some i
  | none ↦ if p c then some pos else none
]

-- find, find_first_of, find_first_not_of with a start position
abbrev pub find_if : (ℕ → Bool) → Bytes → ℕ → Option ℕ
find_if p s pos = find_from p pos (drop pos s)

-- find_last_not_of with the last position that counts
abbrev pub find_last_if : (ℕ → Bool) → Bytes → ℕ → Option ℕ
find_last_if p s pos = find_last_from p 0 (take (pos + 1) s)

abbrev pub substr : Bytes → ℕ → ℕ → Bytes
substr s pos count = take count (drop pos s)

-- std::size_t subtraction; the numbers here stay below 2 ^ 64
unfoldable pub size_sub : ℕ → ℕ → ℕ
size_sub a b = (a + 2 ^ 64 - b) % 2 ^ 64
