-- ===== src/Sack/Query/Tests.antt =====
-- Runs of filters on concrete sets.
use libhif.Base.{ℕ, ◌&&◌, none, some, List, [], ◌∷◌, ◌≡◌, refl, ltb}
use libhif.Utils.Set.{contains}
use libhif.Utils.Set.Numbers.{nat_order}
use libhif.Utils.Set.Members.{IsAscending}
use libhif.Sack.Match.{
  neq, gt, unsupported_operator, glob, ok, match_int64, match_patterns, match_values_patterns,
}
use libhif.Sack.Query.{ifilter, ifilter_int64, ifilter_int64s}
use libhif.Sack.Query.Filters.{any, passes, match_values_patterns-any, contains-ifilter}

abbrev ids : List ℕ
ids = 1 ∷ 4 ∷ 9 ∷ []

above_three : ifilter_int64 (λ n. n) gt 3 ids ≡ (4 ∷ 9 ∷ [], none)
unfolding ifilter_int64 ifilter match_int64
above_three = refl

refused : ifilter_int64 (λ n. n) glob 3 ids ≡ (ids, some unsupported_operator)
unfolding ifilter_int64 ifilter match_int64
refused = refl

-- a value that differs from one of two patterns is kept
neq_any : ifilter_int64s (λ n. n ∷ []) neq (1 ∷ 4 ∷ []) ids ≡ (ids, none)
unfolding ifilter_int64s ifilter match_int64 match_patterns match_values_patterns
neq_any = refl

contains-ifilter_example :
    IsAscending (ifilter (λ n. match_int64 n gt 3) ids).0
    × ((x : ℕ)
        → contains (ifilter (λ n. match_int64 n gt 3) ids).0 x
          ≡ (contains ids x && passes (match_int64 x gt 3)))
unfolding ifilter match_int64
contains-ifilter_example =
    contains-ifilter (λ n. match_int64 n gt 3) ids ((refl, (refl, tt)), ((refl, tt), (tt, tt))) refl

match_values_patterns-any_example :
    match_values_patterns (match_int64 {T = ℕ}) (1 ∷ 4 ∷ []) gt (4 ∷ 2 ∷ [])
    ≡ ok (any (λ v. any (λ p. ltb p v) (4 ∷ 2 ∷ [])) (1 ∷ 4 ∷ []))
unfolding match_int64
match_values_patterns-any_example =
    match_values_patterns-any (match_int64 {T = ℕ}) gt (λ v p. ltb p v) (λ v p. refl) (1 ∷ 4 ∷ [])
      (4 ∷ 2 ∷ [])

abbrev three : ℕ
three = 3

abbrev five : ℕ
five = 5
