-- ===== src/Conf/Kinds/Allowed.antt =====
-- An option never holds a value that its class does not allow.
use libhif.Base.{
  Bool, true, false, Option, List, [], ◌∷◌, ◌≡◌, refl, arith, Bytes, Bool-cases, inl, inr,
}
use libhif.Conf.Option.{Kind, Setting, Priority, at_least, set, try_set, try_set_all}
use libhif.Conf.Kinds.{number_kind}

module _ {ℓ} {T : Type ℓ} (k : Kind T) where
  test-try_set :
      (s : Setting T) (source : Priority × T)
      → k.test s.value ≡ true
      → k.test (try_set k s source).value ≡ true
  unfolding try_set set
  test-try_set s (priority, v) h = elim (Bool-cases (at_least priority s.priority)) [
    | inr low ↦ rw (try_set, set, low) h
    | inl high ↦ elim (Bool-cases (k.test v)) [
      | inl allowed ↦ rw (try_set, set, high, allowed) allowed
      | inr refused ↦ rw (try_set, set, high, refused) h
    ]
  ]

  -- An option that holds an allowed value holds one after any attempts to set it.
  pub test-try_set_all :
      (s : Setting T) (sources : List (Priority × T))
      → k.test s.value ≡ true
      → k.test (try_set_all k s sources).value ≡ true
  unfolding try_set_all
  test-try_set_all s [] h = h
  test-try_set_all s (source ∷ sources) h =
      test-try_set_all (try_set k s source) sources (test-try_set s source h)

-- A numeric option whose value is neither less than its minimum nor greater than its maximum keeps such a
-- value, whatever sources set it, and however its type compares and reads numbers: operator< is any
-- test, so for floats too, of which one that is no number is neither less nor greater.
pub try_set_all_bounds :
    {T : Type 0} (lt : T → T → Bool) (from_string : Bytes → Option T) (to_string : T → Bytes)
    (min max : T) (s : Setting T) (sources : List (Priority × T))
    → lt s.value min ≡ false
    → lt max s.value ≡ false
    → (lt (try_set_all (number_kind lt from_string to_string min max) s sources).value min ≡ false)
      × (lt max (try_set_all (number_kind lt from_string to_string min max) s sources).value
          ≡ false)
try_set_all_bounds lt from_string to_string min max s sources low high =
    let inside =
      test-try_set_all (number_kind lt from_string to_string min max) s sources
        (rw (low, high) refl) in
    (ground (arith, inside), ground (arith, inside))
