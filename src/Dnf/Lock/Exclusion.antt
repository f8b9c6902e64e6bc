-- ===== src/Dnf/Lock/Exclusion.antt =====
-- A lock of one thread against the calls of the others.
use libhif.Base.{
  ℕ, Bool, true, not, ◌&&◌, none, some, List, [], ◌∷◌, ◌++◌, ◌≡◌, ◌≢◌, inl, inr, refl, sym, ap, ◌∙◌,
  arith, ◌==◌, ==_iff, Bool-cases, Option-cases,
}
use libhif.Dnf.Lock.{
  LockType, LockMode, thread, process, LockItem, System, Lock, cannot_get_lock, Taken, taken,
  refused, filed, not_filed, find_item, change_item, remove_item, has_type_mode, has_id, ref_up,
  ref_down, emit_state, create_item, make_file, item_for, take_new, created, take, delete_at_zero,
  release,
}
use libhif.Dnf.Lock.Items.{find_item-change_item, owner_of, find_item-append}
use libhif.Dnf.Lock.Owners.{
  Owned, owner-item_for, Owned-change_item, Owned-remove_item, Owned-append,
}

-- a call by a thread
pub data Call : Type 0 where
  takes : ℕ → LockType → LockMode → Call
  releases : ℕ → ℕ → Call

module _ {W : Type 0} (system : System W) where
  unfoldable pub call : Call → Lock W → Lock W
  call (takes self lock_type mode) lock = (take system self lock_type mode lock).0
  call (releases self id) lock = (release system self id lock).0

  unfoldable pub calls : List Call → Lock W → Lock W
  calls [] lock = lock
  calls (c ∷ cs) lock = calls cs (call c lock)

-- no release by a thread
abbrev pub keeps : ℕ → List Call → Bool
keeps a [] = true
keeps a (takes self lock_type mode ∷ cs) = keeps a cs
keeps a (releases self id ∷ cs) = not (self == a) && keeps a cs

abbrev new_item : ℕ → LockType → LockMode → ℕ → LockItem
new_item owner lock_type mode id = record {
  owner = owner;
  id = id;
  refcount = 1;
  mode = mode;
  lock_type = lock_type;
}

take_new_items :
    {W : Type 0} (system : System W) (a id : ℕ) (l : LockType) (m : LockMode) (lock : Lock W)
    → (take_new system a l m lock).1 ≡ taken id
    → (take_new system a l m lock).0.item_array
      ≡ lock.item_array ++ (new_item a l m lock.next_id ∷ [])
unfolding take_new emit_state create_item
take_new_items system a id l thread lock e = refl
take_new_items system a id l process lock e = ground (arith, e)

its_lock : (l : LockType) (m : LockMode) (a id : ℕ) → has_type_mode l m (new_item a l m id) ≡ true
its_lock l thread a id = ground arith
its_lock l process a id = ground arith

module _ {W : Type 0} (system : System W) (a : ℕ) (lock_type : LockType) (mode : LockMode) where
  -- the items of a lock
  abbrev Holds : Lock W → Type 0
  Holds lock = Owned system a lock_type mode lock.item_array

  take_new-Holds :
      (c : ℕ) (l : LockType) (m : LockMode) (lock : Lock W)
      → item_for system l m lock.item_array ≡ none
      → Holds lock
      → Holds (take_new system c l m lock).0
  unfolding take_new emit_state create_item
  take_new-Holds c l thread lock free held =
      Owned-append system a lock_type mode lock.item_array _ free held
  take_new-Holds c l process lock free held =
      elim (make_file system l lock.system)
        as (λ f.
          Holds
            (elim f as (λ x. Lock W × Taken) [
              | filed w ↦ created system c l process lock w
              | not_filed error ↦ (lock, refused error)
            ]).0) [
              | filed w ↦ Owned-append system a lock_type mode lock.item_array _ free held
              | not_filed error ↦ held
            ]

  from_items :
      (lock : Lock W) (items : List LockItem)
      → lock.item_array ≡ items
      → Owned system a lock_type mode items
      → Holds lock
  from_items lock items e owned = rw e owned

  take-Holds :
      (c : ℕ) (l : LockType) (m : LockMode) (lock : Lock W)
      → Holds lock
      → Holds (take system c l m lock).0
  unfolding take emit_state
  take-Holds c l m lock held = elim (Option-cases (item_for system l m lock.item_array)) [
    | inl free ↦
        from_items (take system c l m lock).0 (take_new system c l m lock).0.item_array
          (ground (arith, free)) (take_new-Holds c l m lock free held)
    | inr (item, found) ↦ elim (Bool-cases (item.owner == c)) [
      | inl own_item ↦
          from_items (take system c l m lock).0
            (change_item (has_id item.id) ref_up lock.item_array) (ground (arith, found, own_item))
            (Owned-change_item system a lock_type mode item.id ref_up lock.item_array (λ i. refl)
              (λ i. refl) (λ i. refl) held)
      | inr foreign ↦
          from_items (take system c l m lock).0 lock.item_array (ground (arith, found, foreign))
            held
    ]
  ]

  release_Holds :
      (c id : ℕ) (lock : Lock W) → c ≢ a → Holds lock → Holds (release system c id lock).0
  unfolding release emit_state
  release_Holds c id lock other held =
      let same = from_items (release system c id lock).0 lock.item_array in
      let down_items = change_item (has_id id) ref_down lock.item_array in
      let down =
        Owned-change_item system a lock_type mode id ref_down lock.item_array (λ i. refl)
          (λ i. refl) (λ i. refl) held in
      elim (Bool-cases (id == 0)) [
        | inl zero_id ↦ same (ground (arith, zero_id)) held
        | inr some_id ↦ elim (Option-cases (find_item (has_id id) lock.item_array)) [
          | inl missing ↦ same (ground (arith, some_id, missing)) held
          | inr (item, found) ↦ elim (Bool-cases (item.owner == c)) [
            | inr foreign ↦ same (ground (arith, some_id, found, foreign)) held
            | inl own_item ↦
                elim (Option-cases (delete_at_zero system (ref_down item) lock.system)) [
                  | inl fails ↦
                      from_items (release system c id lock).0 down_items
                        (ground (arith, some_id, found, own_item, fails)) down
                  | inr (w, deleted) ↦ elim (Bool-cases ((ref_down item).refcount == 0)) [
                    | inr counted ↦
                        from_items (release system c id lock).0 down_items
                          (ground (arith, some_id, found, own_item, deleted, counted)) down
                    | inl last ↦
                        from_items (release system c id lock).0 (remove_item (has_id id) down_items)
                          (ground (arith, some_id, found, own_item, deleted, last))
                          (Owned-remove_item system a lock_type mode id down_items (ref_down item)
                            (find_item-change_item (has_id id) ref_down lock.item_array item
                              (λ i. refl) found)
                            (λ e. other (sym ((==_iff item.owner c).0 own_item) ∙ e)) down)
                  ]
                ]
          ]
        ]
      ]

  call_Holds :
      (cs : List Call) (lock : Lock W)
      → keeps a cs ≡ true
      → Holds lock
      → Holds (calls system cs lock)
  unfolding calls call
  call_Holds [] lock kept_so held = held
  call_Holds (takes c l m ∷ cs) lock kept_so held =
      call_Holds cs (take system c l m lock).0 kept_so (take-Holds c l m lock held)
  call_Holds (releases c id ∷ cs) lock kept_so held =
      call_Holds cs (release system c id lock).0 (ground (arith, kept_so))
        (release_Holds c id lock (λ e. ground (arith, kept_so, (==_iff c a).1 e)) held)

  -- the new item of the thread
  own_append :
      (items : List LockItem) (new_item : LockItem)
      → new_item.owner ≡ a
      → has_type_mode lock_type mode new_item ≡ true
      → find_item (has_type_mode lock_type mode) items ≡ none
      → Owned system a lock_type mode (items ++ (new_item ∷ []))
  own_append items new_item its_owner its_lock free = ground (
    arith,
    its_owner,
    its_lock,
    free,
    find_item-append (has_type_mode lock_type mode) items new_item,
  )

  taken_Holds :
      (lock : Lock W) (id : ℕ)
      → (take system a lock_type mode lock).1 ≡ taken id
      → Holds (take system a lock_type mode lock).0
  unfolding take emit_state item_for
  taken_Holds lock id e = elim (Option-cases (item_for system lock_type mode lock.item_array)) [
    | inl free ↦
        let made = new_item a lock_type mode lock.next_id in
        from_items (take system a lock_type mode lock).0 (lock.item_array ++ (made ∷ []))
          (ground (arith, free)
            ∙ take_new_items system a id lock_type mode lock (ground (arith, free, e)))
          (own_append lock.item_array made refl (its_lock lock_type mode a lock.next_id)
            (ground (arith, free)))
    | inr (item, found) ↦ elim (Bool-cases (item.owner == a)) [
      | inr foreign ↦ absurd (ground (arith, e, found, foreign))
      | inl own_item ↦
          let before : Holds lock =
            sym (owner-item_for system a lock_type mode lock.item_array)
            ∙ ap owner_of found
            ∙ ap some ((==_iff item.owner a).0 own_item) in
          take-Holds a lock_type mode lock before
    ]
  ]

  -- While a thread that has taken a lock does not release any, and whatever is called otherwise by it and by
  -- the other threads, each of the others is refused the lock, and nothing changes.
  pub take_excludes :
      (b id : ℕ) (lock : Lock W) (cs : List Call)
      → a ≢ b
      → (take system a lock_type mode lock).1 ≡ taken id
      → keeps a cs ≡ true
      → take system b lock_type mode (calls system cs (take system a lock_type mode lock).0)
        ≡ (calls system cs (take system a lock_type mode lock).0, refused (some cannot_get_lock))
  unfolding take
  take_excludes b id lock cs other e kept_so =
      let later = calls system cs (take system a lock_type mode lock).0 in
      let held =
        call_Holds cs (take system a lock_type mode lock).0 kept_so (taken_Holds lock id e) in
      let owner = owner-item_for system a lock_type mode later.item_array ∙ held in
      elim (Option-cases (item_for system lock_type mode later.item_array)) [
        | inl free ↦ absurd (ground (arith, owner, free))
        | inr (item, found) ↦ ground (arith, found, owner, ==_iff item.owner b, other)
      ]
