-- ===== src/Sack/Match.antt =====
-- libdnf/common/sack/match_int64.cpp, match_string.cpp and include/libdnf/common/sack/query_cmp.hpp: tests of values against
-- patterns. int64_t is a type with an order; fnmatch and std::regex_match are parameters.
use libhif.Base.{
  ℕ, ◌+◌, Bool, true, false, not, ◌&&◌, ◌||◌, List, [], ◌∷◌, Bytes, bytes_eq, leb, if◌then◌else◌,
}
use libhif.Utils.Set.{Order}

-- a value of the enumeration's type without a name is `unnamed`
pub data QueryCmp : Type 0 where
  flag_not flag_icase isnull : QueryCmp
  eq neq gt gte lt lte : QueryCmp
  iexact not_iexact contains not_contains icontains not_icontains : QueryCmp
  startswith istartswith endswith iendswith : QueryCmp
  regex iregex glob not_glob iglob not_iglob : QueryCmp
  unnamed : ℕ → QueryCmp

pub data Error : Type 0 where
  unsupported_operator flag_standalone not_implemented : Error

pub data Result {ℓ} (A : Type ℓ) : Type ℓ where
  ok : A → Result A
  err : Error → Result A

module _ {ℓ} {T : Type ℓ} ⦃o : Order T⦄ where
  unfoldable pub match_int64 : T → QueryCmp → T → Result Bool
  match_int64 value eq pattern = ok (not (o.lt value pattern) && not (o.lt pattern value))
  match_int64 value neq pattern = ok (o.lt value pattern || o.lt pattern value)
  match_int64 value lt pattern = ok (o.lt value pattern)
  match_int64 value lte pattern = ok (not (o.lt pattern value))
  match_int64 value gt pattern = ok (o.lt pattern value)
  match_int64 value gte pattern = ok (not (o.lt value pattern))
  match_int64 value flag_not pattern = err flag_standalone
  match_int64 value flag_icase pattern = err flag_standalone
  match_int64 value (unnamed n) pattern = ok false
  match_int64 value _ pattern = err unsupported_operator

abbrev pub tolower : ℕ → ℕ
tolower c = if leb b'A' c && leb c b'Z' then c + 32 else c

abbrev pub tolower_all : Bytes → Bytes
tolower_all [] = []
tolower_all (c ∷ s) = tolower c ∷ tolower_all s

-- The first argument of each test says whether it ignores case.
module _ (fnmatch regex_match : Bool → Bytes → Bytes → Bool) where
  pub match_string : Bytes → QueryCmp → Bytes → Result Bool
  match_string value eq pattern = ok (bytes_eq value pattern)
  match_string value neq pattern = ok (not (bytes_eq value pattern))
  match_string value iexact pattern = ok (bytes_eq (tolower_all value) (tolower_all pattern))
  match_string value glob pattern = ok (fnmatch false pattern value)
  match_string value iglob pattern = ok (fnmatch true pattern value)
  match_string value regex pattern = ok (regex_match false pattern value)
  match_string value iregex pattern = ok (regex_match true pattern value)
  match_string value isnull pattern = err unsupported_operator
  match_string value lt pattern = err unsupported_operator
  match_string value lte pattern = err unsupported_operator
  match_string value gt pattern = err unsupported_operator
  match_string value gte pattern = err unsupported_operator
  match_string value flag_not pattern = err flag_standalone
  match_string value flag_icase pattern = err flag_standalone
  match_string value (unnamed n) pattern = ok false
  match_string value _ pattern = err not_implemented

-- the overloads for vectors, which are the same loops in both files
module _ {ℓ κ} {V : Type ℓ} {P : Type κ} (match_one : V → QueryCmp → P → Result Bool) where
  unfoldable pub match_patterns : V → QueryCmp → List P → Result Bool
  match_patterns value cmp [] = ok false
  match_patterns value cmp (pattern ∷ patterns) = elim (match_one value cmp pattern) [
    | err e ↦ err e
    | ok true ↦ ok true
    | ok false ↦ match_patterns value cmp patterns
  ]

  pub match_values : List V → QueryCmp → P → Result Bool
  match_values [] cmp pattern = ok false
  match_values (value ∷ values) cmp pattern = elim (match_one value cmp pattern) [
    | err e ↦ err e
    | ok true ↦ ok true
    | ok false ↦ match_values values cmp pattern
  ]

  unfoldable pub match_values_patterns : List V → QueryCmp → List P → Result Bool
  match_values_patterns [] cmp patterns = ok false
  match_values_patterns (value ∷ values) cmp patterns = elim (match_patterns value cmp patterns) [
    | err e ↦ err e
    | ok true ↦ ok true
    | ok false ↦ match_values_patterns values cmp patterns
  ]

-- the loops over strings
module _ (fnmatch regex_match : Bool → Bytes → Bytes → Bool) where
  abbrev pub match_string_patterns : Bytes → QueryCmp → List Bytes → Result Bool
  match_string_patterns = match_patterns (match_string fnmatch regex_match)

  abbrev pub match_strings : List Bytes → QueryCmp → Bytes → Result Bool
  match_strings = match_values (match_string fnmatch regex_match)

  abbrev pub match_strings_patterns : List Bytes → QueryCmp → List Bytes → Result Bool
  match_strings_patterns = match_values_patterns (match_string fnmatch regex_match)
