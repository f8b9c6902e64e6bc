-- ===== src/Dnf/State/Interpolation.antt =====
-- The percentage that a parent with weighted steps makes of its child's.
use native.Mathlib.Nat.{add-mul, mul-add, mul-le-mul_right}
use libhif.Base.{
  ℕ, zero, suc, ◌+◌, ◌-◌, ◌*◌, ◌/◌, ◌%◌, ◌^◌, ◌≤◌, List, ◌≡◌, sym, ap, ◌∙◌, arith, get_or,
}
use libhif.Dnf.State.{weighted_percentage}

-- where a step begins
abbrev pub start_of : ℕ → List ℕ → ℕ
start_of zero step_data = 0
start_of (suc before) step_data = get_or step_data before 0

-- without wrapping, between `a` and `a + d`
scaled :
    (p a d : ℕ)
    → p ≤ 100
    → a + d ≤ 100
    → (((100 + 2 ^ 32 - p) % 2 ^ 32 * a) % 2 ^ 32 + (p * (a + d)) % 2 ^ 32) % 2 ^ 32 / 100
      ≡ (100 * a + p * d) / 100
scaled p a d hp h =
    let rest : (100 + 2 ^ 32 - p) % 2 ^ 32 ≡ 100 - p = omega (arith, hp) in
    let whole : 100 - p + p ≡ 100 = omega (arith, hp) in
    let split : 100 * a ≡ (100 - p) * a + p * a =
      ap (λ n. n * a) (sym whole) ∙ add-mul (100 - p) p a in
    let most : p * (a + d) ≤ 100 * (a + d) = mul-le-mul_right (a + d) hp in
    rw rest (omega (arith, split, mul-add p a d, most, h))

weighted_lem :
    (p current : ℕ) (step_data : List ℕ) (d : ℕ)
    → p ≤ 100
    → get_or step_data current 0 ≡ start_of current step_data + d
    → start_of current step_data + d ≤ 100
    → weighted_percentage p current step_data ≡ (100 * start_of current step_data + p * d) / 100
unfolding weighted_percentage
weighted_lem p zero step_data d hp e h =
    let most : p * d ≤ 100 * d = mul-le-mul_right d hp in
    let here : get_or step_data 0 0 ≡ d = e ∙ omega arith in rw here (omega (arith, most, h))
weighted_lem p (suc before) step_data d hp e h = rw e (scaled p (get_or step_data before 0) d hp h)

-- Of a step that begins at one percentage and ends at another, not lower and at most 100, and for two percentages
-- of the child, the first not above the second and both at most 100: what the parent makes of them lies
-- between the ends of the step and in their order; of 0 it makes the beginning, and of 100 the end.
pub weighted_percentage-between :
    (current : ℕ) (step_data : List ℕ) (p q : ℕ)
    → p ≤ q
    → q ≤ 100
    → start_of current step_data ≤ get_or step_data current 0
    → get_or step_data current 0 ≤ 100
    → let of_child = λ (n : ℕ). weighted_percentage n current step_data in
      (start_of current step_data ≤ of_child p)
      × (of_child p ≤ of_child q)
      × (of_child q ≤ get_or step_data current 0)
      × (of_child 0 ≡ start_of current step_data)
      × (of_child 100 ≡ get_or step_data current 0)
weighted_percentage-between current step_data p q low high rises top =
    let a = start_of current step_data in
    let d = get_or step_data current 0 - a in
    let ends : get_or step_data current 0 ≡ a + d = omega (arith, rises) in
    let sums : a + d ≤ 100 = omega (arith, ends, top) in
    let at_p = weighted_lem p current step_data d (omega (arith, low, high)) ends sums in
    let at_q = weighted_lem q current step_data d high ends sums in
    let at_0 = weighted_lem 0 current step_data d (omega arith) ends sums in
    let at_100 = weighted_lem 100 current step_data d (omega arith) ends sums in
    let lower : p * d ≤ q * d = mul-le-mul_right d low in
    let upper : q * d ≤ 100 * d = mul-le-mul_right d high in
    (
      omega (arith, at_p),
      omega (arith, at_p, at_q, lower),
      omega (arith, at_q, upper, ends),
      omega (arith, at_0),
      omega (arith, at_100, ends),
    )
