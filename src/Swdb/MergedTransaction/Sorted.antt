-- ===== src/Swdb/MergedTransaction/Sorted.antt =====
-- merge(): the transactions stay in ascending order of their ids.
use libhif.Base.{ℕ, ◌≤◌, List, [], ◌∷◌, inl, inr, arith, ltb, ltb→lt, All, Bool-cases}
use libhif.Swdb.MergedTransaction.{Transaction, merge, list_ids}

unfoldable pub IsAscending : List ℕ → Type 0
IsAscending [] = Unit
IsAscending (id ∷ ids) = All (λ i. id ≤ i) ids × IsAscending ids

-- the constructor and the calls of merge() behind it
unfoldable pub merge_all : List Transaction → List Transaction → List Transaction
merge_all transactions [] = transactions
merge_all transactions (trans ∷ others) = merge_all (merge transactions trans) others

All-le_trans : (a b : ℕ) (ids : List ℕ) → a ≤ b → All (λ i. b ≤ i) ids → All (λ i. a ≤ i) ids
All-le_trans a b [] h all = tt
All-le_trans a b (id ∷ ids) h all = (omega (arith, h, all.0), All-le_trans a b ids h all.1)

merge-All :
    (a : ℕ) (transactions : List Transaction) (trans : Transaction)
    → a ≤ trans.id
    → All (λ i. a ≤ i) (list_ids transactions)
    → All (λ i. a ≤ i) (list_ids (merge transactions trans))
unfolding merge list_ids
merge-All a [] trans h all = (h, tt)
merge-All a (t ∷ transactions) trans h all = elim (Bool-cases (ltb trans.id t.id)) [
  | inl before ↦ rw before (h, all)
  | inr behind ↦ rw behind (all.0, merge-All a transactions trans h all.1)
]

merge-IsAscending :
    (transactions : List Transaction) (trans : Transaction)
    → IsAscending (list_ids transactions)
    → IsAscending (list_ids (merge transactions trans))
unfolding merge list_ids IsAscending
merge-IsAscending [] trans sorted = (tt, tt)
merge-IsAscending (t ∷ transactions) trans sorted = elim (Bool-cases (ltb trans.id t.id)) [
  | inl before ↦
      let less = ltb→lt trans.id t.id before in
      rw before
        ((omega (arith, less), All-le_trans trans.id t.id _ (omega (arith, less)) sorted.0), sorted)
  | inr behind ↦ rw behind (
    merge-All t.id transactions trans (ground (arith, behind)) sorted.0,
    merge-IsAscending transactions trans sorted.1,
  )
]

-- Where the ids of the transactions so far are in ascending order, as behind the constructor, they
-- still are behind any calls of merge().
pub merge_all-IsAscending :
    (transactions others : List Transaction)
    → IsAscending (list_ids transactions)
    → IsAscending (list_ids (merge_all transactions others))
unfolding merge_all
merge_all-IsAscending transactions [] sorted = sorted
merge_all-IsAscending transactions (trans ∷ others) sorted =
    merge_all-IsAscending (merge transactions trans) others
      (merge-IsAscending transactions trans sorted)
