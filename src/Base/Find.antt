-- ===== src/Base/Find.antt =====
-- Laws of the searches in Text.
use Prim.Native.Nat.{ℕ, ◌+◌, ◌-◌, ◌^◌, ◌≤◌, ◌<◌}
use mathlib.Core.Path.{◌≡◌, refl, ap, ◌∙◌}
use mathlib.Core.Bool.{Bool, true, false, not}
use mathlib.Core.List.{List, [], ◌∷◌, ◌++◌}
use mathlib.Core.Option.{none, some}
use native.Mathlib.Omega.{arith}
use libhif.Base.Lists.{length, take, drop, All, length-drop}
use libhif.Base.Text.{Bytes, find_from, find_last_from, size_sub, substr, find_if, find_last_if}

-- Every byte passes the test, or none does.
abbrev pub AllPass : (ℕ → Bool) → Bytes → Type 0
AllPass p = All (λ c. p c ≡ true)

abbrev pub NonePass : (ℕ → Bool) → Bytes → Type 0
NonePass p = All (λ c. p c ≡ false)

pub find_from_first :
    (p : ℕ → Bool) (pos : ℕ) (xs : Bytes) (x : ℕ) (ys : Bytes)
    → NonePass p xs
    → p x ≡ true
    → find_from p pos (xs ++ (x ∷ ys)) ≡ some (pos + length xs)
unfolding find_from
find_from_first p pos [] x ys n h = rw h (ap some (omega arith))
find_from_first p pos (c ∷ xs) x ys n h =
    rw n.0 (find_from_first p (pos + 1) xs x ys n.1 h ∙ ap some (omega arith))

pub find_from-none :
    (p : ℕ → Bool) (pos : ℕ) (xs : Bytes) → NonePass p xs → find_from p pos xs ≡ none
unfolding find_from
find_from-none p pos [] n = refl
find_from-none p pos (c ∷ xs) n = rw n.0 (find_from-none p (pos + 1) xs n.1)

pub find_last_from-none :
    (p : ℕ → Bool) (pos : ℕ) (xs : Bytes) → NonePass p xs → find_last_from p pos xs ≡ none
unfolding find_last_from
find_last_from-none p pos [] n = refl
find_last_from-none p pos (c ∷ xs) n = ground (arith, find_last_from-none p (pos + 1) xs n.1)

pub find_last_from_last :
    (p : ℕ → Bool) (pos : ℕ) (xs : Bytes) (x : ℕ) (ys : Bytes)
    → p x ≡ true
    → NonePass p ys
    → find_last_from p pos (xs ++ (x ∷ ys)) ≡ some (pos + length xs)
unfolding find_last_from
find_last_from_last p pos [] x ys h n = ground (arith, find_last_from-none p (pos + 1) ys n)
find_last_from_last p pos (c ∷ xs) x ys h n =
    ground (arith, find_last_from_last p (pos + 1) xs x ys h n)

module _ {ℓ} {A : Type ℓ} where
  pub drop-length_append : (xs ys : List A) → drop (length xs) (xs ++ ys) ≡ ys
  drop-length_append [] ys = refl
  drop-length_append (x ∷ xs) ys = drop-length_append xs ys

  pub take-length_append : (xs ys : List A) → take (length xs) (xs ++ ys) ≡ xs
  take-length_append [] ys = refl
  take-length_append (x ∷ xs) ys = ap (◌∷◌ x) (take-length_append xs ys)

pub size_sub_le : (a b : ℕ) → b ≤ a → a < 2 ^ 64 → size_sub a b ≡ a - b
unfolding size_sub
size_sub_le a b h k = omega arith

-- A substring that stands between two known parts.
pub substr_middle :
    (s xs ys zs : Bytes) (pos count : ℕ)
    → s ≡ xs ++ (ys ++ zs)
    → pos ≡ length xs
    → count ≡ length ys
    → substr s pos count ≡ ys
substr_middle s xs ys zs pos count e p n =
    rw (e, p, n, drop-length_append xs (ys ++ zs)) (take-length_append ys zs)

pub NonePass-not : (p : ℕ → Bool) (xs : Bytes) → AllPass p xs → NonePass (λ c. not (p c)) xs
NonePass-not p [] a = tt
NonePass-not p (c ∷ xs) a = (ap not a.0, NonePass-not p xs a.1)

pub find_from_head :
    (p : ℕ → Bool) (pos : ℕ) (lead s : Bytes) (x : ℕ) (rest : Bytes)
    → NonePass p lead
    → s ≡ x ∷ rest
    → p x ≡ true
    → find_from p pos (lead ++ s) ≡ some (pos + length lead)
find_from_head p pos lead s x rest n e h = rw e (find_from_first p pos lead x rest n h)

pub NonePass-append :
    (p : ℕ → Bool) (xs ys : Bytes) → NonePass p xs → NonePass p ys → NonePass p (xs ++ ys)
NonePass-append p [] ys n m = m
NonePass-append p (x ∷ xs) ys n m = (n.0, NonePass-append p xs ys n.1 m)

pub find_if_suffix :
    (p : ℕ → Bool) (s xs ys : Bytes) (pos : ℕ)
    → s ≡ xs ++ ys
    → pos ≡ length xs
    → find_if p s pos ≡ find_from p pos ys
find_if_suffix p s xs ys pos e n = rw (e, n, drop-length_append xs ys)

pub find_last_if_prefix :
    (p : ℕ → Bool) (s xs ys : Bytes) (pos : ℕ)
    → s ≡ xs ++ ys
    → pos + 1 ≡ length xs
    → find_last_if p s pos ≡ find_last_from p 0 xs
find_last_if_prefix p s xs ys pos e n = rw (e, n, take-length_append xs ys)

-- A position that a search returns lies behind its start and inside the text.
pub find_from_bounds :
    (p : ℕ → Bool) (pos : ℕ) (s : Bytes) (i : ℕ)
    → find_from p pos s ≡ some i
    → (pos ≤ i) × (i < pos + length s)
unfolding find_from
find_from_bounds p pos [] i h = absurd cc
find_from_bounds p pos (c ∷ s) i h = ground (arith, find_from_bounds p (pos + 1) s i)

pub find_if_bounds :
    (p : ℕ → Bool) (s : Bytes) (pos i : ℕ) → find_if p s pos ≡ some i → (pos ≤ i) × (i < length s)
find_if_bounds p s pos i h =
    let (low, high) = find_from_bounds p pos (drop pos s) i h in
    (low, omega (arith, length-drop pos s))
