-- ===== src/Sack/Query/Filters.antt =====
-- What filters keep, and what the comparisons of values with patterns mean.
use libhif.Base.{
  Bool, true, false, not, ◌&&◌, ◌||◌, none, List, [], ◌∷◌, ◌≡◌, refl, arith, Bool-cases, inl, inr,
  ◌⊎◌,
}
use libhif.Utils.Set.{Order, contains}
use libhif.Utils.Set.Members.{IsAscending, Above, Above-trans, contains-Above, asym}
use libhif.Sack.Match.{
  QueryCmp, eq, neq, gt, gte, lt, lte, Error, Result, ok, err, match_int64, match_patterns,
  match_values_patterns,
}
use libhif.Sack.Query.{ifilter}

abbrev pub any {ℓ} : {A : Type ℓ} → (A → Bool) → List A → Bool
any p [] = false
any p (x ∷ xs) = p x || any p xs

abbrev pub passes : Result Bool → Bool
passes (ok b) = b
passes (err e) = false

module _ {ℓ κ} {V : Type ℓ} {P : Type κ} (match_one : V → QueryCmp → P → Result Bool)
    (cmp : QueryCmp) (h : V → P → Bool) where
  match_patterns-any :
      ((v : V) (p : P) → match_one v cmp p ≡ ok (h v p))
      → (value : V) (patterns : List P)
      → match_patterns match_one value cmp patterns ≡ ok (any (h value) patterns)
  unfolding match_patterns
  match_patterns-any known value [] = refl
  match_patterns-any known value (p ∷ patterns) = elim (Bool-cases (h value p)) [
    | inl hit ↦ rw (match_patterns, known value p, hit) refl
    | inr miss ↦ rw (match_patterns, known value p, miss) (match_patterns-any known value patterns)
  ]

  -- Where no single test throws, several values match several patterns exactly when some value
  -- matches some pattern, for every operator, so also for the negated ones.
  pub match_values_patterns-any :
      ((v : V) (p : P) → match_one v cmp p ≡ ok (h v p))
      → (values : List V) (patterns : List P)
      → match_values_patterns match_one values cmp patterns
        ≡ ok (any (λ v. any (h v) patterns) values)
  unfolding match_values_patterns
  match_values_patterns-any known [] patterns = refl
  match_values_patterns-any known (v ∷ values) patterns = elim (Bool-cases (any (h v) patterns)) [
    | inl hit ↦ rw (match_values_patterns, match_patterns-any known v patterns, hit) refl
    | inr miss ↦
        rw (match_values_patterns, match_patterns-any known v patterns, miss)
          (match_values_patterns-any known values patterns)
  ]

Result-cases : (r : Result Bool) → (r ≡ ok true) ⊎ ((r ≡ ok false) ⊎ ((e : Error) × (r ≡ err e)))
Result-cases (ok true) = inl refl
Result-cases (ok false) = inr (inl refl)
Result-cases (err e) = inr (inr (e, refl))

module _ {ℓ} {T : Type ℓ} ⦃o : Order T⦄ where
  -- On numbers EQ holds of equal values only, NEQ, LTE and GTE are the opposites of EQ, GT and LT,
  -- and exactly one of LT, EQ and GT holds.
  pub match_int64_lem :
      (value pattern : T)
      → ((passes (match_int64 value eq pattern) ≡ true → value ≡ pattern)
          × (passes (match_int64 value eq value) ≡ true))
        × (passes (match_int64 value neq pattern) ≡ not (passes (match_int64 value eq pattern)))
        × (passes (match_int64 value lte pattern) ≡ not (passes (match_int64 value gt pattern)))
        × (passes (match_int64 value gte pattern) ≡ not (passes (match_int64 value lt pattern)))
        × (passes (match_int64 value eq pattern) ≡ (
            not (passes (match_int64 value lt pattern))
            && not (passes (match_int64 value gt pattern))))
        × ((passes (match_int64 value lt pattern) && passes (match_int64 value gt pattern)) ≡ false)
  unfolding match_int64
  match_int64_lem value pattern = (
    ((λ e. ground (arith, e, o.connex value pattern)), ground (arith, o.irrefl value)),
    ground arith,
    ground arith,
    ground arith,
    ground arith,
    ground (arith, asym value pattern),
  )

  Above-ifilter :
      (test : T → Result Bool) (x : T) (its : List T) → Above x its → Above x (ifilter test its).0
  unfolding ifilter
  Above-ifilter test x [] above = tt
  Above-ifilter test x (it ∷ its) above = elim (Result-cases (test it)) [
    | inl kept ↦ rw (ifilter, kept) (above.0, Above-ifilter test x its above.1)
    | inr (inl erased) ↦ rw (ifilter, erased) (Above-ifilter test x its above.1)
    | inr (inr (e, thrown)) ↦ rw (ifilter, thrown) above
  ]

  -- A filter that throws nothing keeps the order of a set and exactly the elements that pass.
  pub contains-ifilter :
      (test : T → Result Bool) (its : List T)
      → IsAscending its
      → (ifilter test its).1 ≡ none
      → IsAscending (ifilter test its).0
        × ((x : T) → contains (ifilter test its).0 x ≡ (contains its x && passes (test x)))
  unfolding ifilter contains
  contains-ifilter test [] u h = (tt, λ x. refl)
  contains-ifilter test (it ∷ its) u h = elim (Result-cases (test it)) [
    | inr (inr (e, thrown)) ↦ absurd (ground (arith, h, thrown))
    | inl kept ↦
        let quiet : (ifilter test its).1 ≡ none = rw (ifilter, kept) at h in
        let (ascending, members) = contains-ifilter test its u.1 quiet in
        (
          rw (ifilter, kept) (Above-ifilter test it its u.0, ascending),
          λ x. rw (ifilter, kept) (ground (arith, members x, kept, o.connex x it)),
        )
    | inr (inl erased) ↦
        let quiet : (ifilter test its).1 ≡ none = rw (ifilter, erased) at h in
        let (ascending, members) = contains-ifilter test its u.1 quiet in
        (
          rw (ifilter, erased) ascending,
          λ x.
              let beyond : o.lt x it ≡ true → contains its x ≡ false =
                λ below. contains-Above x its (Above-trans x it its below u.0) in
              rw (ifilter, erased) (ground (arith, members x, erased, o.connex x it, beyond)),
        )
  ]
