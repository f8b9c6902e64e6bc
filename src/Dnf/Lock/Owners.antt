-- ===== src/Dnf/Lock/Owners.antt =====
-- The owner of a lock, behind the changes of the array of items.
use libhif.Base.{
  ℕ, Bool, true, false, ◌&&◌, Option, none, some, List, [], ◌∷◌, ◌++◌, ◌≡◌, ◌≢◌, inl, inr, refl,
  sym, ap₂, ◌∙◌, arith, Bool-cases,
}
use libhif.Dnf.Lock.{
  LockType, rpmdb, repo, metadata, config, LockMode, thread, process, same_type, same_mode,
  LockItem, System, find_item, change_item, remove_item, has_type_mode, has_id, item_for,
}
use libhif.Dnf.Lock.Items.{
  owner_of, find_item-append, owner-change_item, owner-remove_item, none-remove_item,
}

-- the owner of a lock, from those of its own item and of the process lock
abbrev pub owner_for : LockMode → Option ℕ → Option ℕ → Option ℕ
owner_for thread none by_process = by_process
owner_for process none by_process = none
owner_for mode (some owner) by_process = some owner

same_type_lem : (s t : LockType) → same_type s t ≡ true → s ≡ t
same_type_lem rpmdb rpmdb e = refl
same_type_lem repo repo e = refl
same_type_lem metadata metadata e = refl
same_type_lem config config e = refl
same_type_lem s t e = absurd (ground (arith, e))

same_mode_lem : (s t : LockMode) → same_mode s t ≡ true → s ≡ t
same_mode_lem thread thread e = refl
same_mode_lem process process e = refl
same_mode_lem s t e = absurd (ground (arith, e))

owner_for_kept :
    (a : ℕ) (mode : LockMode) (own shared own' shared' : Option ℕ)
    → owner_for mode own shared ≡ some a
    → (own ≡ some a → own' ≡ some a)
    → (mode ≡ thread → own ≡ none → shared ≡ some a → own' ≡ none)
    → (shared ≡ some a → shared' ≡ some a)
    → owner_for mode own' shared' ≡ some a
owner_for_kept a mode (some owner) shared own' shared' owned keep_own keep_none keep_shared =
    rw (keep_own owned) refl
owner_for_kept a thread none shared own' shared' owned keep_own keep_none keep_shared =
    rw (keep_none refl refl owned) (keep_shared owned)
owner_for_kept a process none shared own' shared' owned keep_own keep_none keep_shared =
    ground (arith, owned)

both : (x y : Bool) → (x && y) ≡ true → (x ≡ true) × (y ≡ true)
both x y e = (ground (arith, e), ground (arith, e))

owner_append :
    (a : ℕ) (p : LockItem → Bool) (items : List LockItem) (new_item : LockItem)
    → owner_of (find_item p items) ≡ some a
    → owner_of (find_item p (items ++ (new_item ∷ []))) ≡ some a
owner_append a p items new_item e = ground (arith, e, find_item-append p items new_item)

none_append :
    (p : LockItem → Bool) (items : List LockItem) (new_item : LockItem)
    → p new_item ≡ false
    → owner_of (find_item p items) ≡ none
    → owner_of (find_item p (items ++ (new_item ∷ []))) ≡ none
none_append p items new_item differs e =
    ground (arith, e, differs, find_item-append p items new_item)

module _ {W : Type 0} (system : System W) (a : ℕ) (lock_type : LockType) (mode : LockMode) where
  -- the owners of the first items of the type, in the mode and as a process lock
  abbrev pub own : List LockItem → Option ℕ
  own items = owner_of (find_item (has_type_mode lock_type mode) items)

  abbrev pub shared : List LockItem → Option ℕ
  shared items = owner_of (find_item (has_type_mode lock_type process) items)

  -- the lock is counted at an item of the thread
  abbrev pub Owned : List LockItem → Type 0
  Owned items = owner_for mode (own items) (shared items) ≡ some a

  pub owner-item_for :
      (items : List LockItem)
      → owner_of (item_for system lock_type mode items) ≡ owner_for mode (own items) (shared items)
  unfolding item_for
  owner-item_for items = ground arith

  pub Owned-change_item :
      (id : ℕ) (f : LockItem → LockItem) (items : List LockItem)
      → ((item : LockItem)
          → has_type_mode lock_type mode (f item) ≡ has_type_mode lock_type mode item)
      → ((item : LockItem)
          → has_type_mode lock_type process (f item) ≡ has_type_mode lock_type process item)
      → ((item : LockItem) → (f item).owner ≡ item.owner)
      → Owned items
      → Owned (change_item (has_id id) f items)
  Owned-change_item id f items keeps_key keeps_process keeps_owner owned =
      let own_so =
        owner-change_item (has_type_mode lock_type mode) (has_id id) f items keeps_key
          keeps_owner in
      let shared_so =
        owner-change_item (has_type_mode lock_type process) (has_id id) f items keeps_process
          keeps_owner in
      rw (own_so, shared_so) owned

  pub Owned-remove_item :
      (id : ℕ) (items : List LockItem) (removed : LockItem)
      → find_item (has_id id) items ≡ some removed
      → removed.owner ≢ a
      → Owned items
      → Owned (remove_item (has_id id) items)
  Owned-remove_item id items removed found other owned =
      let own_test = has_type_mode lock_type mode in
      let shared_test = has_type_mode lock_type process in
      owner_for_kept a mode (own items) (shared items) (own (remove_item (has_id id) items))
        (shared (remove_item (has_id id) items)) owned
        (owner-remove_item own_test (has_id id) items removed a found other)
        (λ m e s. none-remove_item own_test (has_id id) items e)
        (owner-remove_item shared_test (has_id id) items removed a found other)

  not_free :
      (new_item : LockItem) (items : List LockItem)
      → mode ≡ thread
      → has_type_mode lock_type mode new_item ≡ true
      → shared items ≡ some a
      → item_for system new_item.lock_type new_item.mode items ≢ none
  unfolding item_for
  not_free new_item items m same s free =
      let (same_t, same_m) =
        both (same_type new_item.lock_type lock_type) (same_mode new_item.mode mode) same in
      let its_type = same_type_lem new_item.lock_type lock_type same_t in
      let its_mode = same_mode_lem new_item.mode mode same_m ∙ m in
      let free_thread : item_for system lock_type thread items ≡ none =
        ap₂ (λ l n. item_for system l n items) (sym its_type) (sym its_mode) ∙ free in
      ground (arith, s, free_thread)

  -- a new item of another lock
  pub Owned-append :
      (items : List LockItem) (new_item : LockItem)
      → item_for system new_item.lock_type new_item.mode items ≡ none
      → Owned items
      → Owned (items ++ (new_item ∷ []))
  unfolding item_for
  Owned-append items new_item free owned =
      let own_test = has_type_mode lock_type mode in
      let shared_test = has_type_mode lock_type process in
      owner_for_kept a mode (own items) (shared items) (own (items ++ (new_item ∷ [])))
        (shared (items ++ (new_item ∷ []))) owned (owner_append a own_test items new_item)
        (λ m e s. elim (Bool-cases (own_test new_item)) [
          | inl same ↦ absurd (not_free new_item items m same s free)
          | inr differs ↦ none_append own_test items new_item differs e
        ])
        (owner_append a shared_test items new_item)
