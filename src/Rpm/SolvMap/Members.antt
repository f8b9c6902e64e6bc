-- ===== src/Rpm/SolvMap/Members.antt =====
-- A SolvMap as the set of the ids that contains() says yes to, with libsolv's bitmap operations as bitmap.h has them.
use libhif.Base.{
  ℕ, zero, suc, ◌+◌, ◌*◌, ◌/◌, ◌%◌, ◌^◌, ◌<◌, ◌≤◌, Bool, true, false, some, List, [], ◌∷◌, ◌++◌,
  map, ◌≡◌, refl, sym, ap, ap₂, ◌∙◌, arith, ◌==◌, lt→ltb, if◌then◌else◌, length, length-append,
  get_or,
}
use libhif.Rpm.SolvMap.{
  pos, Map, Libsolv, bits, contains, all_zero, empty, add_counts, size, bit_count_lookup, begin,
  collect,
}
use libhif.Rpm.SolvMap.Bits.{bits_of, bits_of-zero, div-pow-suc, length-bits_of, bits_of_positive}
use native.Mathlib.Nat.{div-one}
use libhif.Rpm.SolvMap.Tables.{lookup_lem}
use libhif.Rpm.SolvMap.Iteration.{IsBytes, members_at, collect-begin}

-- the bit `id` of bytes
abbrev pub bit_at : List ℕ → ℕ → Bool
bit_at bytes id = get_or bytes (id / 8) 0 / 2 ^ (id % 8) % 2 == 1

-- bitmap.h: MAPTST reads the bit of an id, MAPSET and MAPCLR change that bit only and leave the size
pub record IsLibsolv (solv : Libsolv) : Type 0 where
  pub maptst_lem : (m : Map) (id : ℕ) → id < bits m → solv.maptst m id ≡ bit_at m.bytes id
  pub bits-mapset : (m : Map) (id : ℕ) → bits (solv.mapset m id) ≡ bits m
  pub bits-mapclr : (m : Map) (id : ℕ) → bits (solv.mapclr m id) ≡ bits m
  pub maptst-mapset :
      (m : Map) (id other : ℕ)
      → IsBytes m.bytes
      → id < bits m
      → other < bits m
      → solv.maptst (solv.mapset m id) other ≡ (if id == other then true else solv.maptst m other)
  pub maptst-mapclr :
      (m : Map) (id other : ℕ)
      → IsBytes m.bytes
      → id < bits m
      → other < bits m
      → solv.maptst (solv.mapclr m id) other ≡ (if id == other then false else solv.maptst m other)

-- the numbers from `p` on that pass a test, of `n`
pub select : (ℕ → Bool) → ℕ → ℕ → List ℕ
select t zero p = []
select t (suc n) p = let rest = select t n (suc p) in if t p then p ∷ rest else rest

if-append :
    (b : Bool) (x : ℕ) (xs ys : List ℕ)
    → (if b then x ∷ (xs ++ ys) else (xs ++ ys)) ≡ (if b then x ∷ xs else xs) ++ ys
if-append true x xs ys = refl
if-append false x xs ys = refl

select-append : (t : ℕ → Bool) (n k p : ℕ) → select t (n + k) p ≡ select t n p ++ select t k (p + n)
unfolding select
select-append t zero k p = ap₂ (select t) {x = 0 + k} (omega arith) (omega arith)
select-append t (suc n) k p =
    let rest : select t (n + k) (suc p) ≡ select t n (suc p) ++ select t k (p + suc n) =
      select-append t n k (suc p)
      ∙ ap (λ q. select t n (suc p) ++ select t k q) {x = suc p + n} (omega arith) in
    let more : suc n + k ≡ suc (n + k) = omega arith in
    ap (λ j. select t j p) more
    ∙ ap (λ l. if t p then p ∷ l else l) rest
    ∙ if-append (t p) p (select t n (suc p)) (select t k (p + suc n))

length-select : (t : ℕ → Bool) (n p : ℕ) → length (select t n p) ≤ n
unfolding select
length-select t zero p = omega arith
length-select t (suc n) p = ground (arith, length-select t n (suc p))

-- the bits of a byte
bits_of-select :
    (t : ℕ → Bool) (n p b : ℕ)
    → ((i : ℕ) → i < n → t (p + i) ≡ (b / 2 ^ i % 2 == 1))
    → bits_of n p b ≡ select t n p
unfolding select bits_of
bits_of-select t zero p b h = refl
bits_of-select t (suc n) p b h =
    let here : t p ≡ (b % 2 == 1) =
      ap t {y = p + 0} (omega arith) ∙ h 0 (omega arith) ∙ ap (λ x. x % 2 == 1) (div-one b) in
    let later : (i : ℕ) → i < n → t (suc p + i) ≡ (b / 2 / 2 ^ i % 2 == 1) = λ i. λ lt.
      ap t {y = p + suc i} (omega arith)
      ∙ h (suc i) (omega (arith, lt))
      ∙ ap (λ x. x % 2 == 1) (div-pow-suc b i) in
    rw (here, bits_of-select t n (suc p) (b / 2) later) refl

bit_at-tail : (b : ℕ) (bs : List ℕ) (i : ℕ) → bit_at (b ∷ bs) (8 + i) ≡ bit_at bs i
bit_at-tail b bs i =
    let byte : (8 + i) / 8 ≡ suc (i / 8) = omega arith in
    let place : (8 + i) % 8 ≡ i % 8 = omega arith in rw (byte, place) refl

bit_at-head : (b : ℕ) (bs : List ℕ) (i : ℕ) → i < 8 → bit_at (b ∷ bs) i ≡ (b / 2 ^ i % 2 == 1)
bit_at-head b bs i lt =
    let byte : i / 8 ≡ 0 = omega (arith, lt) in
    let place : i % 8 ≡ i = omega (arith, lt) in rw (byte, place) refl

members_at-select :
    (t : ℕ → Bool) (c : ℕ) (bytes : List ℕ)
    → ((i : ℕ) → i < 8 * length bytes → t (8 * c + i) ≡ bit_at bytes i)
    → members_at c bytes ≡ select t (8 * length bytes) (8 * c)
unfolding members_at select
members_at-select t c [] h = ap (λ n. select t n (8 * c)) {x = 0} {y = 8 * 0} (omega arith)
members_at-select t c (b ∷ bs) h =
    let head : (i : ℕ) → i < 8 → t (8 * c + i) ≡ (b / 2 ^ i % 2 == 1) =
      λ i. λ lt. h i (omega (arith, lt)) ∙ bit_at-head b bs i lt in
    let tail : (i : ℕ) → i < 8 * length bs → t (8 * (c + 1) + i) ≡ bit_at bs i = λ i. λ lt.
      ap t {y = 8 * c + (8 + i)} (omega arith)
      ∙ h (8 + i) (omega (arith, lt))
      ∙ bit_at-tail b bs i in
    let more : 8 * length (b ∷ bs) ≡ 8 + 8 * length bs = omega arith in
    ap₂ (λ l r. l ++ r) (bits_of-select t 8 (8 * c) b head) (members_at-select t (c + 1) bs tail)
    ∙ ap (λ q. select t 8 (8 * c) ++ select t (8 * length bs) q) {x = 8 * (c + 1)} (omega arith)
    ∙ sym (ap (λ n. select t n (8 * c)) more ∙ select-append t 8 (8 * length bs) (8 * c))

module _ (solv : Libsolv) where
  pub members : Map → List ℕ
  members m = select (λ id. contains solv m (pos id)) (bits m) 0

  contains-bit_at :
      IsLibsolv solv → (m : Map) (i : ℕ) → i < bits m → contains solv m (pos i) ≡ bit_at m.bytes i
  unfolding contains
  contains-bit_at law m i lt = rw (lt→ltb i (bits m) lt) (law.maptst_lem m i lt)

  members_lem : IsLibsolv solv → (m : Map) → members_at 0 m.bytes ≡ members m
  unfolding members
  members_lem law m =
      let test = λ (id : ℕ). contains solv m (pos id) in
      let at_start : 8 * 0 ≡ 0 = omega arith in
      members_at-select test 0 m.bytes
        (λ i. λ lt. ap test {x = 8 * 0 + i} (omega arith) ∙ contains-bit_at law m i lt)
      ∙ ap (select test (bits m)) at_start

  -- The iteration from begin() to end() gives the ids that contains() says yes to, each once and in ascending
  -- order, in at most as many steps as the bitmap has bits; for the documented MAPTST and a bitmap of bytes.
  pub collect-members :
      IsLibsolv solv
      → (m : Map) → IsBytes m.bytes
      → collect (bits m) (begin m) ≡ some (map pos (members m))
  unfolding members
  collect-members law m h = rw (sym (members_lem law m)) (
      collect-begin m (bits m) h
        (rw (members_lem law m) (length-select (λ id. contains solv m (pos id)) (bits m) 0)))

count_lem :
    (result c : ℕ) (bytes : List ℕ)
    → IsBytes bytes
    → add_counts result bytes ≡ result + length (members_at c bytes)
unfolding add_counts members_at
count_lem result c [] h = omega arith
count_lem result c (b ∷ bs) h =
    let of_byte = lookup_lem b h.0 ∙ length-bits_of 8 0 (8 * c) b in
    omega (
      arith,
      of_byte,
      count_lem (result + get_or bit_count_lookup b 0) (c + 1) bs h.1,
      length-append (bits_of 8 (8 * c) b) (members_at (c + 1) bs),
    )

all_zero_lem :
    (c : ℕ) (bytes : List ℕ) → IsBytes bytes → all_zero bytes ≡ (length (members_at c bytes) == 0)
unfolding all_zero members_at
all_zero_lem c [] h = refl
all_zero_lem c (b ∷ bs) h =
    let none_set : b ≡ 0 → length (bits_of 8 (8 * c) b) ≡ 0 =
      λ z. ap length (ap (bits_of 8 (8 * c)) z ∙ bits_of-zero 8 (8 * c)) in
    ground (
      arith,
      none_set,
      all_zero_lem (c + 1) bs h.1,
      length-append (bits_of 8 (8 * c) b) (members_at (c + 1) bs),
      bits_of_positive 8 (8 * c) b h.0,
    )

size-members_at : (m : Map) → IsBytes m.bytes → size m ≡ length (members_at 0 m.bytes)
unfolding size
size-members_at m h = omega (arith, count_lem 0 0 m.bytes h)

-- size() is the number of the ids that contains() says yes to, and empty() says whether it is 0, for the
-- documented MAPTST and a bitmap of bytes.
pub size-empty :
    (solv : Libsolv) (m : Map)
    → IsLibsolv solv
    → IsBytes m.bytes
    → (size m ≡ length (members solv m)) × (empty m ≡ (size m == 0))
unfolding empty
size-empty solv m law h = (
  size-members_at m h ∙ ap length (members_lem solv law m),
  all_zero_lem 0 m.bytes h ∙ ap (λ n. n == 0) (sym (size-members_at m h)),
)
