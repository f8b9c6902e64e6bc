-- ===== src/Base/Eq.antt =====
-- Equality of keys, as `std::equal_to` tests it.
use mathlib.Core.Path.{◌≡◌}
use mathlib.Core.Logic.{◌↔◌}
use mathlib.Core.Bool.{Bool, true}
use libhif.Base.Text.{Bytes, bytes_eq, bytes_eq_iff}

pub record Eq {ℓ} (A : Type ℓ) : Type ℓ where
  pub beq : A → A → Bool
  pub beq_iff : (a b : A) → (beq a b ≡ true) ↔ (a ≡ b)

instance abbrev pub bytes_equality : Eq Bytes
bytes_equality = record { beq = bytes_eq; beq_iff = bytes_eq_iff }
