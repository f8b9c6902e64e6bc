-- ===== src/Utils/Set/Numbers.antt =====
-- Numbers in the order that std::less gives them.
use libhif.Base.{ℕ, true, false, ◌≡◌, arith, ltb}
use libhif.Utils.Set.{Order}

pub ltb_irrefl : (a : ℕ) → ltb a a ≡ false
ltb_irrefl a = ground arith

pub ltb_trans : (a b c : ℕ) → ltb a b ≡ true → ltb b c ≡ true → ltb a c ≡ true
ltb_trans a b c h k = ground arith

pub ltb_connex : (a b : ℕ) → ltb a b ≡ false → ltb b a ≡ false → a ≡ b
ltb_connex a b h k = ground arith

instance abbrev pub nat_order : Order ℕ
nat_order = record { lt = ltb; irrefl = ltb_irrefl; trans = ltb_trans; connex = ltb_connex }
