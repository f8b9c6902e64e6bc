-- ===== src/Rpm/SolvMap/Update.antt =====
-- What contains() says after add() and remove(), and their refusal of an id outside the bitmap.
use libhif.Base.{
  ℕ, ◌<◌, ◌≤◌, Bool, true, false, ◌≡◌, refl, arith, ◌==◌, ltb, if◌then◌else◌, Bool-cases, ltb→lt,
  ◌⊎◌, inl, inr,
}
use libhif.Rpm.SolvMap.{pos, Map, Libsolv, ok, out_of_range, bits, add, remove, contains}
use libhif.Rpm.SolvMap.Members.{IsLibsolv}
use libhif.Rpm.SolvMap.Iteration.{IsBytes}

-- the test of an id is for another one as before, and `b` for this one
abbrev pub Changed : Libsolv → Map → Map → ℕ → Bool → Type 0
Changed solv m m' id b =
    (other : ℕ)
    → contains solv m' (pos other) ≡ (if id == other then b else contains solv m (pos other))

module _ (solv : Libsolv) (law : IsLibsolv solv) where
  contains-Changed :
      (m m' : Map) (id : ℕ) (b : Bool)
      → id < bits m
      → bits m' ≡ bits m
      → ((other : ℕ)
          → other < bits m
          → solv.maptst m' other ≡ (if id == other then b else solv.maptst m other))
      → Changed solv m m' id b
  unfolding contains
  contains-Changed m m' id b lt same h other = elim (Bool-cases (ltb other (bits m))) [
    | inl inside ↦ rw (same, inside) (h other (ltb→lt other (bits m) inside))
    | inr outside ↦
        let another : (id == other) ≡ false = ground (arith, lt, outside) in
        rw (same, outside, another) refl
  ]

  -- Of an id inside the bitmap, add() succeeds and makes contains() true of it and leaves it as it was for every
  -- other id, and remove() likewise makes it false; of an id past the bitmap both throw, and contains() is
  -- false. For the documented MAPTST, MAPSET and MAPCLR and a bitmap of bytes.
  pub add-remove :
      (m : Map) (id : ℕ)
      → IsBytes m.bytes
      → ((id < bits m)
          × (m' : Map) × (add solv m (pos id) ≡ ok m')
          × Changed solv m m' id true
          × (m'' : Map) × (remove solv m (pos id) ≡ ok m'')
          × Changed solv m m'' id false)
        ⊎ ((bits m ≤ id)
            × (add solv m (pos id) ≡ out_of_range)
            × (remove solv m (pos id) ≡ out_of_range)
            × (contains solv m (pos id) ≡ false))
  unfolding add remove contains
  add-remove m id h = elim (Bool-cases (ltb id (bits m))) [
    | inl inside ↦
        let lt = ltb→lt id (bits m) inside in
        let set =
          contains-Changed m (solv.mapset m id) id true lt (law.bits-mapset m id)
            (λ other. law.maptst-mapset m id other h lt) in
        let clear =
          contains-Changed m (solv.mapclr m id) id false lt (law.bits-mapclr m id)
            (λ other. law.maptst-mapclr m id other h lt) in
        inl (lt, solv.mapset m id, rw inside refl, set, solv.mapclr m id, rw inside refl, clear)
    | inr outside ↦ inr (ground (arith, outside), rw outside refl, rw outside refl, rw outside refl)
  ]
