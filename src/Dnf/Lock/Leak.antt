-- ===== src/Dnf/Lock/Leak.antt =====
-- A process lock whose file cannot be deleted.
use libhif.Base.{ℕ, ◌-◌, ◌^◌, none, some, ◌≡◌, ◌≢◌, refl, ap, ◌∙◌, arith, ==_iff}
use libhif.Dnf.Lock.{
  process, LockItem, System, Lock, not_deleted, released, kept, find_item, change_item, has_id,
  ref_down, emit_state, release,
}
use libhif.Dnf.Lock.Items.{find_item-change_item}

count_wraps :
    (item : LockItem)
    → item.refcount ≡ 1
    → ref_down (ref_down item) ≡ record item { refcount = 2 ^ 32 - 1 }
count_wraps item counted = ap (λ n. record item { refcount = n }) (omega (arith, counted))

-- When the only count of a process lock is released and its file cannot be deleted, the release fails
-- with an error but the count is gone; the owner's next release succeeds, and leaves the lock counted
-- 2 ^ 32 - 1 times.
pub release_twice-not_deleted :
    {W : Type 0} (system : System W) (id : ℕ) (lock : Lock W) (item : LockItem)
    → id ≢ 0
    → find_item (has_id id) lock.item_array ≡ some item
    → item.refcount ≡ 1
    → item.mode ≡ process
    → system.delete item.lock_type lock.system ≡ none
    → let once = release system item.owner id lock in
      let twice = release system item.owner id once.0 in
      (once.1 ≡ kept (some not_deleted))
      × (twice.1 ≡ released)
      × (find_item (has_id id) twice.0.item_array ≡ some (record item { refcount = 2 ^ 32 - 1 }))
unfolding release emit_state
release_twice-not_deleted system id lock item some_id found counted is_process fails =
    let owner = (==_iff item.owner item.owner).1 refl in
    let items1 = change_item (has_id id) ref_down lock.item_array in
    let found1 =
      find_item-change_item (has_id id) ref_down lock.item_array item (λ i. refl) found in
    let found2 =
      find_item-change_item (has_id id) ref_down items1 (ref_down item) (λ i. refl) found1 in
    let lock1 : Lock _ = record lock { item_array = items1 } in
    let lock2 : Lock _ =
      emit_state (record lock { item_array = change_item (has_id id) ref_down items1 }) in
    let once : release system item.owner id lock ≡ (lock1, kept (some not_deleted)) =
      ground (arith, found, owner, counted, is_process, fails, some_id) in
    let twice : release system item.owner id lock1 ≡ (lock2, released) =
      ground (arith, found1, owner, counted, some_id) in
    let again : release system item.owner id (release system item.owner id lock).0
        ≡ (lock2, released) =
      ap (λ l. release system item.owner id l.0) once ∙ twice in
    (
      ap (λ r. r.1) once,
      ap (λ r. r.1) again,
      ap (λ r. find_item (has_id id) r.0.item_array) again
          ∙ found2
          ∙ ap some (count_wraps item counted),
    )
