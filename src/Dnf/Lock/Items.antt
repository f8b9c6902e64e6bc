-- ===== src/Dnf/Lock/Items.antt =====
-- The first item that passes a test, behind the changes of the array of items.
use libhif.Base.{
  ℕ, Bool, Option, none, some, List, [], ◌∷◌, ◌++◌, ◌≡◌, ◌≢◌, refl, arith, if◌then◌else◌,
}
use libhif.Dnf.Lock.{LockItem, find_item, change_item, remove_item}

pub find_item-append :
    (p : LockItem → Bool) (items : List LockItem) (new_item : LockItem)
    → find_item p (items ++ (new_item ∷ [])) ≡ (elim (find_item p items) as (λ o. Option LockItem) [
      | some item ↦ some item
      | none ↦ if p new_item then some new_item else none
    ])
unfolding find_item
find_item-append p [] new_item = refl
find_item-append p (item ∷ items) new_item = ground (arith, find_item-append p items new_item)

-- the owner of the first item that passes
abbrev pub owner_of : Option LockItem → Option ℕ
owner_of none = none
owner_of (some item) = some item.owner

-- a change that keeps the test and the owner
pub owner-change_item :
    (p q : LockItem → Bool) (f : LockItem → LockItem) (items : List LockItem)
    → ((item : LockItem) → p (f item) ≡ p item)
    → ((item : LockItem) → (f item).owner ≡ item.owner)
    → owner_of (find_item p (change_item q f items)) ≡ owner_of (find_item p items)
unfolding find_item change_item
owner-change_item p q f [] keeps_p keeps_owner = refl
owner-change_item p q f (item ∷ items) keeps_p keeps_owner =
    ground
      (arith, keeps_p item, keeps_owner item, owner-change_item p q f items keeps_p keeps_owner)

-- the removal of an item with another owner
pub owner-remove_item :
    (p q : LockItem → Bool) (items : List LockItem) (removed : LockItem) (a : ℕ)
    → find_item q items ≡ some removed
    → removed.owner ≢ a
    → owner_of (find_item p items) ≡ some a
    → owner_of (find_item p (remove_item q items)) ≡ some a
unfolding find_item remove_item
owner-remove_item p q [] removed a found other e = e
owner-remove_item p q (item ∷ items) removed a found other e =
    ground (arith, found, other, e, owner-remove_item p q items removed a)

pub none-remove_item :
    (p q : LockItem → Bool) (items : List LockItem)
    → owner_of (find_item p items) ≡ none
    → owner_of (find_item p (remove_item q items)) ≡ none
unfolding find_item remove_item
none-remove_item p q [] e = e
none-remove_item p q (item ∷ items) e = ground (arith, e, none-remove_item p q items)

-- the changed item
pub find_item-change_item :
    (p : LockItem → Bool) (f : LockItem → LockItem) (items : List LockItem) (item : LockItem)
    → ((i : LockItem) → p (f i) ≡ p i)
    → find_item p items ≡ some item
    → find_item p (change_item p f items) ≡ some (f item)
unfolding find_item change_item
find_item-change_item p f [] item keeps e = ground (arith, e)
find_item-change_item p f (i ∷ items) item keeps e =
    ground (arith, e, keeps i, find_item-change_item p f items item keeps)
