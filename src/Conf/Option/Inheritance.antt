-- ===== src/Conf/Option/Inheritance.antt =====
-- An option that falls back to its parent's value, with calls on both.
use libhif.Base.{List, [], ◌∷◌, ◌==◌, ◌≡◌, refl, ap, ◌∙◌, arith, if◌then◌else◌}
use libhif.Conf.Option.{
  Priority, number, Kind, Setting, ok, err, set, try_set, try_set_all, Child, child_set,
  child_get_value,
}
use libhif.Conf.Option.Sources.{top, last_with, try_set_all_lem}

-- an attempt to set the child or the parent
pub data Call (T : Type 0) : Type 0 where
  sets_child sets_parent : Priority × T → Call T

abbrev pub of_child : {T : Type 0} → List (Call T) → List (Priority × T)
of_child [] = []
of_child (sets_child source ∷ calls) = source ∷ of_child calls
of_child (sets_parent source ∷ calls) = of_child calls

abbrev pub of_parent : {T : Type 0} → List (Call T) → List (Priority × T)
of_parent [] = []
of_parent (sets_child source ∷ calls) = of_parent calls
of_parent (sets_parent source ∷ calls) = source ∷ of_parent calls

module _ {T : Type 0} (k : Kind T) where
  -- the child after a call whose exception was caught
  unfoldable pub try_child_set : Child k → Priority × T → Child k
  try_child_set c (priority, value) = elim (child_set k c priority value) [ ok c' ↦ c' | err e ↦ c ]

  unfoldable pub call_all : Child k × Setting T → List (Call T) → Child k × Setting T
  call_all state [] = state
  call_all (c, parent) (sets_child source ∷ calls) = call_all (try_child_set c source, parent) calls
  call_all (c, parent) (sets_parent source ∷ calls) = call_all (c, try_set k parent source) calls

  -- the child's own value as a setting
  abbrev own : Child k → Setting T
  own c = record { default_value = c.own_value; value = c.own_value; priority = c.own_priority }

  SameValue : Child k → Setting T → Type 0
  SameValue c s = (c.own_value ≡ s.value) × (c.own_priority ≡ s.priority)

  try_child_set-SameValue :
      (c : Child k) (s : Setting T) (source : Priority × T)
      → SameValue c s
      → SameValue (try_child_set c source) (try_set k s source)
  unfolding SameValue try_child_set child_set try_set set
  try_child_set-SameValue c s (priority, v) h = ground (arith, h)

  call_all_lem :
      (c : Child k) (s parent : Setting T) (calls : List (Call T))
      → SameValue c s
      → let end = call_all (c, parent) calls in
        SameValue end.0 (try_set_all k s (of_child calls))
        × (end.1 ≡ try_set_all k parent (of_parent calls))
  unfolding call_all try_set_all
  call_all_lem c s parent [] h = (h, refl)
  call_all_lem c s parent (sets_child source ∷ calls) h =
      call_all_lem (try_child_set c source) (try_set k s source) parent calls
        (try_child_set-SameValue c s source h)
  call_all_lem c s parent (sets_parent source ∷ calls) h =
      call_all_lem c s (try_set k parent source) calls h

  -- After any attempts to set a child and its parent, in any order, the child shows: if the highest priority among its own
  -- and those of the allowed values for it is 0, which is EMPTY, what the parent has then, the last allowed
  -- value of its highest priority; and else the last allowed value of the child's highest priority. An
  -- option without an allowed value of that priority keeps the one that it had.
  pub child_get_value-call_all :
      (c : Child k) (parent : Setting T) (calls : List (Call T))
      → let end = call_all (c, parent) calls in
        let child_top = top k (number c.own_priority) (of_child calls) in
        let parent_top = top k (number parent.priority) (of_parent calls) in
        child_get_value k end.0 end.1 ≡ (
          if child_top == 0
          then last_with k parent_top (of_parent calls) parent.value
          else last_with k child_top (of_child calls) c.own_value)
  unfolding child_get_value SameValue
  child_get_value-call_all c parent calls =
      let (mine, theirs) = call_all_lem c (own c) parent calls (refl, refl) in
      let (child_top, child_value) = try_set_all_lem k (own c) (of_child calls) in
      let (parent_top, parent_value) = try_set_all_lem k parent (of_parent calls) in
      let priority = ap number mine.1 ∙ child_top in
      let shown = mine.0 ∙ child_value in
      let fallback = ap (λ (s : Setting T). s.value) theirs ∙ parent_value in
      ground (arith, priority, shown, fallback)
