-- ===== src/Conf/ConfigParser/Read.antt =====
-- Reading item by item: the sections read so far, the last of them open, and the text written.
pub mod Steps
pub mod Options
pub mod RoundTrip
mod Tests
use libhif.Base.{
  ℕ, ◌+◌, ◌≤◌, Bool, true, false, Option, none, some, List, [], ◌∷◌, ◌++◌, ◌≡◌, ◌≢◌, ◌⊎◌, refl, sym,
  ap, ◌∙◌, arith, All, Bytes, ◌==◌, if◌then◌else◌, get_or, is_empty, bytes_eq, bytes_eq_iff,
}
use libhif.Base.Eq.{bytes_equality}
use libhif.Conf.Decimal.{to_string}
use libhif.Utils.IniParser.Names.{NoBracket}
use libhif.Utils.PreserveOrderMap.{at, assign}
use libhif.Utils.PreserveOrderMap.Laws.{keys, holds}
use libhif.Conf.ConfigParser.{ConfigParser, KeyValMap}

pub bytes_eq_sym : (a b : Bytes) → bytes_eq a b ≡ bytes_eq b a
bytes_eq_sym a b = ground (arith, bytes_eq_iff a b, bytes_eq_iff b a)

-- The section's name stands nowhere among these.
abbrev pub Absent : Bytes → List (Bytes × KeyValMap) → Type 0
Absent section = All (λ s. bytes_eq section s.0 ≡ false)

pub holds-Absent :
    (section : Bytes) (cs : List (Bytes × KeyValMap))
    → holds (keys cs) section ≡ false
    → Absent section cs
holds-Absent section [] h = tt
holds-Absent section ((s, kvs) ∷ cs) h =
    ground (arith, bytes_eq_sym section s, holds-Absent section cs)

module _ (section : Bytes) (kvs : KeyValMap) where
  pub at_last :
      (cs : List (Bytes × KeyValMap))
      → Absent section cs
      → at (cs ++ ((section, kvs) ∷ [])) section ≡ some kvs
  unfolding at
  at_last [] a = ground (arith, bytes_eq_iff section section)
  at_last ((s, k) ∷ cs) a = ground (arith, bytes_eq_sym section s, at_last cs a.1)

  pub assign_last :
      (cs : List (Bytes × KeyValMap)) (key_vals : KeyValMap)
      → Absent section cs
      → assign (cs ++ ((section, kvs) ∷ [])) section key_vals ≡ cs ++ ((section, key_vals) ∷ [])
  unfolding assign
  assign_last [] key_vals a = ground (arith, bytes_eq_iff section section)
  assign_last ((s, k) ∷ cs) key_vals a =
      ground (arith, bytes_eq_sym section s, assign_last cs key_vals a.1)

-- A comment's key has a number that was given out.
abbrev pub Numbered : ℕ → Bytes → Type 0
Numbered n key = get_or key 0 0 ≡ b'#' → (m : ℕ) × (m ≤ n) × (key ≡ b'#' ∷ to_string m)

-- The last section of the contents is open for more options.
pub record Open (c : ConfigParser) (section : Bytes) (cs : List (Bytes × KeyValMap))
    (kvs : KeyValMap) : Type 0 where
  pub contents_is : c.contents ≡ cs ++ ((section, kvs) ∷ [])
  pub absent : Absent section cs
  pub raws : is_empty c.raw_items ≡ false
  pub filled : is_empty section ≡ false
  pub numbered : All (Numbered c.item_number) (keys kvs)

-- What holds between two items, when the parser is in a section or before the first.
pub record Reading (c : ConfigParser) (section : Bytes) : Type 0 where
  pub names : All (λ s. NoBracket s.0) c.contents
  pub place :
      ((c.contents ≡ []) × (section ≡ []))
      ⊎ ((cs : List (Bytes × KeyValMap)) × (kvs : KeyValMap) × Open c section cs kvs)
