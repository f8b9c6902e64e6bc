-- ===== src/Base.antt =====
-- Names that the other modules share: the libraries', passed on, Boolean tests and the conditional
-- (Tests), lists over the native numbers (Lists) and byte strings as std::string uses them (Text).
mod Tests
mod Lists
mod Text
mod Find
pub mod Eq
pub use Tests.*
pub use Lists.*
pub use Find.*
unfoldable pub use Text.{bytes_eq, find_from, find_last_from, size_sub}
pub use Text.{Bytes, codes, bytes_eq_iff, is_empty, find_if, find_last_if, substr}
pub use Prim.Native.Nat.{ℕ, zero, suc, ◌+◌, ◌-◌, ◌*◌, ◌/◌, ◌%◌, ◌^◌, ◌≤◌, ◌<◌, min}
pub use mathlib.Core.Path.{◌≡◌, refl, sym, ap, ap₂, ◌∙◌}
pub use mathlib.Core.Logic.{◌≢◌, ◌↔◌, ◌⊎◌, inl, inr}
pub use mathlib.Core.Bool.{Bool, true, false, not, ◌&&◌, ◌||◌}
pub use mathlib.Core.Option.{Option, none, some}
pub use mathlib.Core.List.{List, [], ◌∷◌, ◌++◌, map, append_assoc, append-nil}
pub use native.Mathlib.Omega.{arith}
