-- ===== src/Swdb/MergedTransaction/Numeric.antt =====
-- Packages whose versions are numbers between dots: no exception, and the form of the pairs.
use mathlib.Core.Path.{subst⁻¹}
use libhif.Swdb.MergedTransaction.Installed.{merge_pair-install}
use libhif.Base.{
  ℕ, Bool, true, false, ◌&&◌, Option, none, some, List, [], ◌∷◌, ◌≡◌, ◌⊎◌, inl, inr, refl, ap,
  arith, Bytes, ltb, ◌==◌, bytes_eq, All, Bool-cases, Option-cases,
}
use libhif.Swdb.Packages.{
  upgrade, downgrade, install, downgraded, upgraded, obsoleted, remove, reinstall, reinstalled,
  reason_change, rpm, RpmItem, TransactionItem, set_action, stoi, pieces, lower_version, lower,
}
use libhif.Swdb.MergedTransaction.{
  is_install, ItemPair, Result, ok, alone, kept, resolve_packages, resolve_rpm_difference,
  resolve_erase, resolve_removal, resolve_old, resolve_new, resolve_altered, merge_pair,
}

-- std::stoi reads it
abbrev pub IsNumber : Bytes → Type 0
IsNumber text = (n : ℕ) × (stoi text ≡ some n)

-- a package whose version is numbers between dots
abbrev pub IsNumeric : TransactionItem → Type 0
IsNumeric t = (r : RpmItem) × (t.item ≡ rpm r) × All IsNumber (pieces [] r.version)

-- the second item of a pair is the new package of an upgrade or a downgrade
abbrev pub SecondFits : Option TransactionItem → Type 0
SecondFits none = Unit
SecondFits (some s) = IsNumeric s × ((s.action ≡ upgrade) ⊎ (s.action ≡ downgrade))

abbrev pub PairFits : ItemPair → Type 0
PairFits p = IsNumeric p.first × SecondFits p.second

lower_version_total :
    (these others : List Bytes)
    → All IsNumber these
    → All IsNumber others
    → (b : Bool) × (lower_version these others ≡ some b)
unfolding lower_version
lower_version_total [] others n n' = (false, refl)
lower_version_total (this ∷ these) [] n n' = (false, refl)
lower_version_total (this ∷ these) (other ∷ others) ((a, ea), n) ((b, eb), n') =
    let (rest, e) = lower_version_total these others n n' in
    elim (Bool-cases (a == b)) [
      | inl same ↦ (rest, ground (arith, ea, eb, e, same))
      | inr differs ↦ (ltb a b, ground (arith, ea, eb, differs))
    ]

lower_total :
    (r s : RpmItem)
    → All IsNumber (pieces [] r.version)
    → All IsNumber (pieces [] s.version)
    → (b : Bool) × (lower r s ≡ some b)
unfolding lower
lower_total r s n n' =
    let (b, e) = lower_version_total (pieces [] r.version) (pieces [] s.version) n n' in
    elim (Bool-cases (ltb r.epoch s.epoch)) [
      | inl older ↦ (true, ground (arith, older))
      | inr newer ↦ (b, ground (arith, newer, e))
    ]

-- a pair that fits and the new item that stands in it
abbrev Resolved : ItemPair × TransactionItem → Type 0
Resolved (p, m) = PairFits p × IsNumeric m

resolve_compared :
    (p : ItemPair) (m : TransactionItem) (f s : RpmItem) (is_lower : Bool)
    → lower f s ≡ some is_lower
    → (bytes_eq f.version s.version && f.epoch == s.epoch) ≡ false
    → IsNumeric p.first
    → IsNumeric m
    → (r : ItemPair × TransactionItem) × (resolve_packages p m f s ≡ ok r) × Resolved r
unfolding resolve_packages
resolve_compared p m f s true up differs old new = (
  (
    record { first = set_action p.first upgraded; second = some (set_action m upgrade) },
    set_action m upgrade,
  ),
  ground (arith, up, differs),
  ((old, (new, inl refl)), new),
)
resolve_compared p m f s false down differs old new = (
  (
    record { first = set_action p.first downgraded; second = some (set_action m downgrade) },
    set_action m downgrade,
  ),
  ground (arith, down, differs),
  ((old, (new, inr refl)), new),
)

resolve_packages_total :
    (p : ItemPair) (m : TransactionItem) (f s : RpmItem)
    → IsNumeric p.first
    → IsNumeric m
    → All IsNumber (pieces [] f.version)
    → All IsNumber (pieces [] s.version)
    → (r : ItemPair × TransactionItem) × (resolve_packages p m f s ≡ ok r) × Resolved r
unfolding resolve_packages
resolve_packages_total p m f s old new n n' =
    elim (Bool-cases (bytes_eq f.version s.version && f.epoch == s.epoch)) [
      | inl same ↦ (
        (alone (set_action m reinstall), set_action m reinstall),
        ground (arith, same),
        ((new, tt), new),
      )
      | inr differs ↦
          let (is_lower, compared) = lower_total f s n n' in
          resolve_compared p m f s is_lower compared differs old new
    ]

resolve_total :
    (p : ItemPair) (m : TransactionItem)
    → IsNumeric p.first
    → IsNumeric m
    → (r : ItemPair × TransactionItem) × (resolve_rpm_difference p m ≡ ok r) × Resolved r
unfolding resolve_rpm_difference
resolve_total p m (f, e, n) (s, e', n') =
    let (r, done, fits) = resolve_packages_total p m f s (f, e, n) (s, e', n') n n' in
    (r, ground (arith, e, e', done), fits)

-- a pair that fits is what a case gives
abbrev Answers : (Result ItemPair) → Type 0
Answers r = (p : ItemPair) × (r ≡ ok p) × PairFits p

resolve_erase_total :
    (p : ItemPair) (m : TransactionItem) → PairFits p → IsNumeric m → Answers (resolve_erase p m)
unfolding resolve_erase
resolve_erase_total p m fits numeric = elim (Bool-cases (is_install m.action)) [
  | inl installs ↦
      let (r, done, (p_fits, m_fits)) = resolve_total p m fits.0 numeric in
      (alone r.1, ground (arith, installs, numeric.1, done), (m_fits, tt))
  | inr other ↦ (alone m, ground (arith, other), (numeric, tt))
]

abbrev OldCase : ItemPair → TransactionItem → Type 0
OldCase p m =
    (resolve_old p m ≡ p)
    ⊎ ((resolve_old p m ≡ record { first = m; second = some p.first })
        × ((p.first.action ≡ upgrade) ⊎ (p.first.action ≡ downgrade)))

resolve_old_cases : (p : ItemPair) (m : TransactionItem) → OldCase p m
resolve_old_cases p m = elim (Option-cases p.second) [
  | inr (s, there) ↦ inl (ground (arith, there))
  | inl missing ↦
      elim p.first.action as (λ a. p.first.action ≡ a → OldCase p m) [
        | upgrade ↦ λ e. inr (ground (arith, missing, e), inl e)
        | downgrade ↦ λ e. inr (ground (arith, missing, e), inr e)
        | _ ↦ λ e. inl (ground (arith, missing, e))
      ]
        refl
]

resolve_old_fits :
    (p : ItemPair) (m : TransactionItem) → PairFits p → IsNumeric m → PairFits (resolve_old p m)
resolve_old_fits p m fits numeric = elim (resolve_old_cases p m) [
  | inl same ↦ subst⁻¹ PairFits same fits
  | inr (swapped, action_so) ↦ subst⁻¹ PairFits swapped (numeric, (fits.0, action_so))
]

resolve_new_total :
    (p : ItemPair) (m : TransactionItem)
    → PairFits p
    → IsNumeric m
    → (m.action ≡ upgrade) ⊎ (m.action ≡ downgrade)
    → Answers (resolve_new p m)
resolve_new_total p m fits numeric new_so = elim (Option-cases p.second) [
  | inl missing ↦
      (record p { second = some m }, ground (arith, missing), (fits.0, (numeric, new_so)))
  | inr (s, there) ↦
      let (r, done, (p_fits, m_fits)) = resolve_total p m fits.0 numeric in
      (r.0, ground (arith, there, numeric.1, done), p_fits)
]

resolve_altered_total :
    (p : ItemPair) (m : TransactionItem) → PairFits p → IsNumeric m → Answers (resolve_altered p m)
unfolding resolve_altered
resolve_altered_total p m fits numeric =
    elim m.action as (λ a. m.action ≡ a → Answers (resolve_altered p m)) [
      | remove ↦ λ e. (resolve_removal p remove, ground (arith, e), (fits.0, tt))
      | obsoleted ↦ λ e. (resolve_removal p obsoleted, ground (arith, e), (fits.0, tt))
      | downgraded ↦ λ e. (resolve_old p m, ground (arith, e), resolve_old_fits p m fits numeric)
      | upgraded ↦ λ e. (resolve_old p m, ground (arith, e), resolve_old_fits p m fits numeric)
      | downgrade ↦ λ e.
          let (r, done, r_fits) = resolve_new_total p m fits numeric (inr e) in
          (r, ground (arith, e, done), r_fits)
      | upgrade ↦ λ e.
          let (r, done, r_fits) = resolve_new_total p m fits numeric (inl e) in
          (r, ground (arith, e, done), r_fits)
      | _ ↦ λ e. (p, ground (arith, e), fits)
    ]
      refl

-- the pair that is left, if any, fits
abbrev pub FoundFits : Option ItemPair → Type 0
FoundFits none = Unit
FoundFits (some p) = PairFits p

abbrev pub FoundAnswers : Result (Option ItemPair) → Type 0
FoundAnswers r = (found : Option ItemPair) × (r ≡ ok found) × FoundFits found

kept_total : (r : Result ItemPair) → Answers r → FoundAnswers (kept r)
kept_total r (p, done, fits) = (some p, ap kept done, fits)

pub merge_pair_total :
    (p : ItemPair) (m : TransactionItem) → PairFits p → IsNumeric m → FoundAnswers (merge_pair p m)
unfolding merge_pair
merge_pair_total p m fits numeric =
    elim p.first.action as (λ a. p.first.action ≡ a → FoundAnswers (merge_pair p m)) [
      | install ↦ λ e. elim (merge_pair-install p m e) [
        | inl stays ↦ (some p, stays, fits)
        | inr new_item ↦ (some (alone (set_action m install)), new_item, (numeric, tt))
      ]
      | remove ↦ λ e.
          let (x, done, x_fits) = kept_total _ (resolve_erase_total p m fits numeric) in
          (x, ground (arith, e, done), x_fits)
      | obsoleted ↦ λ e.
          let (x, done, x_fits) = kept_total _ (resolve_erase_total p m fits numeric) in
          (x, ground (arith, e, done), x_fits)
      | reinstall ↦ λ e. (some (alone m), ground (arith, e), (numeric, tt))
      | reason_change ↦ λ e. (some (alone m), ground (arith, e), (numeric, tt))
      | reinstalled ↦ λ e. (some p, ground (arith, e), fits)
      | _ ↦ λ e.
          let (x, done, x_fits) = kept_total _ (resolve_altered_total p m fits numeric) in
          (x, ground (arith, e, done), x_fits)
    ]
      refl
