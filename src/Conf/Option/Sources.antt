-- ===== src/Conf/Option/Sources.antt =====
-- Which of several sources an option's value comes from.
use libhif.Base.{
  ℕ, ◌≤◌, ◌<◌, Bool, true, false, ◌&&◌, List, [], ◌∷◌, ◌==◌, leb, if◌then◌else◌, ◌≡◌, refl, arith,
  ◌∙◌, sym, ap, Bool-cases, inl, inr,
}
use libhif.Conf.Option.{Priority, number, at_least, Kind, Setting, set, try_set, try_set_all}

module _ {T : Type 0} (k : Kind T) where
  -- The highest priority among a first one and those of the sources whose values are allowed.
  abbrev pub top : ℕ → List (Priority × T) → ℕ
  top p [] = p
  top p ((q, v) ∷ sources) = top (if k.test v && leb p (number q) then number q else p) sources

  -- The value of the last allowed source with a priority, or another value without one.
  abbrev pub last_with : ℕ → List (Priority × T) → T → T
  last_with p [] d = d
  last_with p ((q, v) ∷ sources) d =
      last_with p sources (if k.test v && number q == p then v else d)

  top-le : (p : ℕ) (sources : List (Priority × T)) → p ≤ top p sources
  top-le p [] = omega arith
  top-le p ((q, v) ∷ sources) = ground (arith, top-le p sources, top-le (number q) sources)

  -- Where some source has the priority, the other value does not matter.
  last_with_other :
      (p : ℕ) (sources : List (Priority × T)) (d d' : T)
      → p < top p sources
      → last_with (top p sources) sources d ≡ last_with (top p sources) sources d'
  last_with_other p [] d d' h = absurd (omega arith)
  last_with_other p ((q, v) ∷ sources) d d' h = ground (
    arith,
    h,
    top-le p sources,
    top-le (number q) sources,
    last_with_other p sources d d',
    last_with_other (number q) sources d d',
  )

  -- What a source counts for: its value where it has the highest priority of all.
  last_with_first :
      (q : ℕ) (sources : List (Priority × T)) (v d : T)
      → last_with (top q sources) sources (if q == top q sources then v else d)
        ≡ last_with (top q sources) sources v
  last_with_first q sources v d = elim (Bool-cases (q == top q sources)) [
    | inl highest ↦ rw highest refl
    | inr lower ↦ rw lower (last_with_other q sources d v (ground (arith, lower, top-le q sources)))
  ]

  refused_lower :
      (p q : ℕ) (b : Bool) (sources : List (Priority × T))
      → (b && leb p q) ≡ false
      → (b && (q == top p sources)) ≡ false
  refused_lower p q b sources h = ground (arith, h, top-le p sources)

  unchanged :
      (s : Setting T) (q : Priority) (v : T)
      → (k.test v && at_least q s.priority) ≡ false
      → try_set k s (q, v) ≡ s
  unfolding try_set set
  unchanged s q v h = elim (Bool-cases (at_least q s.priority)) [
    | inr low ↦ rw (try_set, set, low) refl
    | inl high ↦
        let refused : k.test v ≡ false = ground (arith, h, high) in
        rw (try_set, set, high, refused) refl
  ]

  -- Setting an option from several sources, where a value that is not allowed changes nothing: the
  -- option ends with the highest priority among its own and those of the allowed values, and with
  -- the last allowed value of that priority, or its own value without one.
  pub try_set_all_lem :
      (s : Setting T) (sources : List (Priority × T))
      → (number (try_set_all k s sources).priority ≡ top (number s.priority) sources)
        × ((try_set_all k s sources).value
            ≡ last_with (top (number s.priority) sources) sources s.value)
  unfolding try_set_all try_set set
  try_set_all_lem s [] = (refl, refl)
  try_set_all_lem s ((q, v) ∷ sources) = elim (Bool-cases (k.test v && at_least q s.priority)) [
    | inl accepted ↦
        let allowed : k.test v ≡ true = ground (arith, accepted) in
        let high : at_least q s.priority ≡ true = ground (arith, accepted) in
        let s' : Setting T = record s { value = v; priority = q } in
        let taken : try_set k s (q, v) ≡ s' = rw (try_set, set, high, allowed) refl in
        let (highest, last) = try_set_all_lem s' sources in
        let tops : top (number s.priority) ((q, v) ∷ sources) ≡ top (number q) sources =
          rw accepted refl in
        let first : last_with (top (number q) sources) ((q, v) ∷ sources) s.value
            ≡ last_with (top (number q) sources) sources v =
          rw allowed (last_with_first (number q) sources v s.value) in
        rw (try_set_all, taken)
          (
            highest ∙ sym tops,
            last ∙ sym first ∙ ap (λ m. last_with m ((q, v) ∷ sources) s.value) (sym tops),
          )
    | inr refused ↦
        let same : try_set k s (q, v) ≡ s = unchanged s q v refused in
        let (highest, last) = try_set_all_lem s sources in
        let tops : top (number s.priority) ((q, v) ∷ sources) ≡ top (number s.priority) sources =
          rw refused refl in
        let lower = refused_lower (number s.priority) (number q) (k.test v) sources refused in
        let skipped : last_with (top (number s.priority) sources) ((q, v) ∷ sources) s.value
            ≡ last_with (top (number s.priority) sources) sources s.value =
          rw lower refl in
        rw (try_set_all, same)
          (
            highest ∙ sym tops,
            last ∙ sym skipped ∙ ap (λ m. last_with m ((q, v) ∷ sources) s.value) (sym tops),
          )
  ]
