-- ===== src/Sack/Query.antt =====
-- include/libdnf/common/sack/query.hpp: Query<T>, a set of objects that ifilter makes smaller. The set is the ascending list of
-- its elements, as in Utils.Set.
pub mod Filters
mod Tests
use libhif.Base.{
  ℕ, Bool, true, false, not, ◌&&◌, Option, none, some, List, [], ◌∷◌, Bytes, if◌then◌else◌,
}
use libhif.Utils.Set.{Order}
use libhif.Sack.Match.{
  QueryCmp, eq, Error, Result, ok, err, match_int64, match_string, match_patterns, match_values,
  match_values_patterns, match_strings_patterns,
}

-- value == pattern
same : Bool → Bool → Bool
same true b = b
same false b = not b

pub match_bool : QueryCmp → Bool → Bool → Result Bool
match_bool eq pattern value = ok (same value pattern)
match_bool _ pattern value = ok false

module _ {ℓ} {T : Type ℓ} where
  -- The loop that all overloads have: the elements left, and the exception that ended it. Elements
  -- that were erased before an exception stay erased.
  pub ifilter : (T → Result Bool) → List T → List T × Option Error
  ifilter test [] = ([], none)
  ifilter test (it ∷ data_left) =
      let (rest, thrown) = ifilter test data_left in
      elim (test it) [
        | err e ↦ (it ∷ data_left, some e)
        | ok true ↦ (it ∷ rest, thrown)
        | ok false ↦ (rest, thrown)
      ]

  -- get(); `none` is the exception
  pub get : List T → Option T
  get [] = none
  get (x ∷ []) = some x
  get (x ∷ y ∷ xs) = none

  module _ {κ} {I : Type κ} ⦃o : Order I⦄ where
    pub ifilter_int64 : (T → I) → QueryCmp → I → List T → List T × Option Error
    ifilter_int64 getter cmp pattern = ifilter (λ it. match_int64 (getter it) cmp pattern)

    pub ifilter_int64s : (T → List I) → QueryCmp → List I → List T → List T × Option Error
    ifilter_int64s getter cmp patterns =
        ifilter (λ it. match_values_patterns match_int64 (getter it) cmp patterns)

  module _ (fnmatch regex_match : Bool → Bytes → Bytes → Bool) where
    pub ifilter_string : (T → Bytes) → QueryCmp → Bytes → List T → List T × Option Error
    ifilter_string getter cmp pattern =
        ifilter (λ it. match_string fnmatch regex_match (getter it) cmp pattern)

    pub ifilter_strings : (T → List Bytes) → QueryCmp → List Bytes → List T → List T × Option Error
    ifilter_strings getter cmp patterns =
        ifilter (λ it. match_strings_patterns fnmatch regex_match (getter it) cmp patterns)

  pub ifilter_bool : (T → Bool) → QueryCmp → Bool → List T → List T × Option Error
  ifilter_bool getter cmp pattern = ifilter (λ it. match_bool cmp pattern (getter it))
