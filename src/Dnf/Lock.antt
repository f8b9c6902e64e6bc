-- ===== src/Dnf/Lock.antt =====
-- dnf-4/libdnf/dnf-lock.cpp, the locks of threads and processes. The calls of one lock object exclude one
-- another by its mutex, so each is one step. The lock files, the running processes and glib's
-- g_ascii_strtoull are parameters; texts of errors are left out.
pub mod Items
pub mod Owners
pub mod Exclusion
pub mod Leak
mod Tests
use libhif.Base.{
  ℕ, zero, suc, ◌+◌, ◌-◌, ◌%◌, ◌^◌, Bool, true, false, not, ◌&&◌, Option, none, some, List, [], ◌∷◌,
  ◌++◌, Bytes, ◌==◌, ltb, if◌then◌else◌, get_elem?,
}

pub data LockType : Type 0 where
  rpmdb repo metadata config : LockType

pub data LockMode : Type 0 where
  thread process : LockMode

-- the values of the enumeration
abbrev pub type_value : LockType → ℕ
type_value rpmdb = 0
type_value repo = 1
type_value metadata = 2
type_value config = 3

abbrev pub same_type : LockType → LockType → Bool
same_type a b = type_value a == type_value b

abbrev pub same_mode : LockMode → LockMode → Bool
same_mode thread thread = true
same_mode process process = true
same_mode _ _ = false

pub record LockItem : Type 0 where
  pub owner : ℕ
  pub id : ℕ
  pub refcount : ℕ
  pub mode : LockMode
  pub lock_type : LockType

pub data Error : Type 0 where
  no_lock_file lock_file_not_read pid_not_parsed pid_too_large cannot_get_lock never_taken
        other_thread not_deleted :
      Error

-- the lock files by their types, and the processes, of a file system `W`
pub record System (W : Type 0) : Type 0 where
  pub exists : LockType → W → Bool
  pub get_contents : LockType → W → Option Bytes
  pub set_contents : LockType → Bytes → W → Option W
  pub delete : LockType → W → Option W
  pub is_running : ℕ → W → Bool
  -- g_ascii_strtoull; `none` if it reads nothing
  pub strtoull : Bytes → Option ℕ
  -- this process, as "%i" prints it
  pub pid_text : Bytes

-- `next_id` is the static counter of dnf_lock_create_item, `emitted` what "state-changed" was sent with
pub record Lock (W : Type 0) : Type 0 where
  pub item_array : List LockItem
  pub next_id : ℕ
  pub emitted : List ℕ
  pub system : W

-- a lock id, or no lock and the error that is set
pub data Taken : Type 0 where
  taken : ℕ → Taken
  refused : Option Error → Taken

pub data Released : Type 0 where
  released : Released
  kept : Option Error → Released

unfoldable pub find_item : (LockItem → Bool) → List LockItem → Option LockItem
find_item p [] = none
find_item p (item ∷ items) = if p item then some item else find_item p items

-- a change of the item that find_item gives
unfoldable pub change_item :
    (LockItem → Bool) → (LockItem → LockItem) → List LockItem → List LockItem
change_item p f [] = []
change_item p f (item ∷ items) = if p item then f item ∷ items else item ∷ change_item p f items

-- g_ptr_array_remove of that item
unfoldable pub remove_item : (LockItem → Bool) → List LockItem → List LockItem
remove_item p [] = []
remove_item p (item ∷ items) = if p item then items else item ∷ remove_item p items

abbrev pub has_type_mode : LockType → LockMode → LockItem → Bool
has_type_mode lock_type mode item = same_type item.lock_type lock_type && same_mode item.mode mode

abbrev pub has_id : ℕ → LockItem → Bool
has_id id item = item.id == id

-- dnf_lock_get_state, of the items; guint wraps
unfoldable pub get_state : List LockItem → ℕ
get_state [] = 0
get_state (item ∷ items) = (2 ^ type_value item.lock_type + get_state items) % 2 ^ 32

abbrev pub ref_up : LockItem → LockItem
ref_up item = record item { refcount = (item.refcount + 1) % 2 ^ 32 }

abbrev pub ref_down : LockItem → LockItem
ref_down item = record item { refcount = (item.refcount + (2 ^ 32 - 1)) % 2 ^ 32 }

module _ {W : Type 0} where
  unfoldable pub emit_state : Lock W → Lock W
  emit_state lock = record lock { emitted = lock.emitted ++ (get_state lock.item_array ∷ []) }

  unfoldable pub create_item : ℕ → LockType → LockMode → Lock W → Lock W
  create_item self lock_type mode lock = record lock {
    next_id = (lock.next_id + 1) % 2 ^ 32;
    item_array =
        lock.item_array
        ++ (record {
          owner = self;
          id = lock.next_id;
          refcount = 1;
          mode = mode;
          lock_type = lock_type;
        }
            ∷ []);
  }

-- the file of a new process lock: the system behind it, or the error that is set
pub data Filed (W : Type 0) : Type 0 where
  filed : W → Filed W
  not_filed : Option Error → Filed W

module _ {W : Type 0} (system : System W) where
  -- 0 if there is none, with the error that is set
  unfoldable pub get_pid : LockType → W → ℕ × Option Error
  get_pid lock_type w =
      if not (system.exists lock_type w)
      then (0, some no_lock_file)
      else elim (system.get_contents lock_type w) [
        | none ↦ (0, some lock_file_not_read)
        | some contents ↦ elim (system.strtoull contents) [
          | none ↦ (0, some pid_not_parsed)
          | some pid ↦ if ltb (2 ^ 32 - 1) pid then (0, some pid_too_large) else (pid, none)
        ]
      ]

  unfoldable pub write_file : LockType → W → Filed W
  write_file lock_type w = elim (system.set_contents lock_type system.pid_text w) [
    | some w' ↦ filed w'
    | none ↦ not_filed (some cannot_get_lock)
  ]

  unfoldable pub make_file : LockType → W → Filed W
  make_file lock_type w =
      if system.exists lock_type w
      then (let (pid, error) = get_pid lock_type w in
          if pid == 0
          then not_filed error
          else if system.is_running pid w
          then not_filed (some cannot_get_lock)
          else write_file lock_type w)
      else write_file lock_type w

  -- the item that a lock of a type and a mode is counted at: a thread may share a process lock
  unfoldable pub item_for : LockType → LockMode → List LockItem → Option LockItem
  item_for lock_type mode items = elim (find_item (has_type_mode lock_type mode) items) [
    | some item ↦ some item
    | none ↦ elim mode [
      | thread ↦ find_item (has_type_mode lock_type process) items
      | process ↦ none
    ]
  ]

  abbrev pub created : ℕ → LockType → LockMode → Lock W → W → Lock W × Taken
  created self lock_type mode lock w = (
    emit_state (create_item self lock_type mode (record lock { system = w })),
    taken lock.next_id,
  )

  -- a new item, with its file if it is a process lock
  unfoldable pub take_new : ℕ → LockType → LockMode → Lock W → Lock W × Taken
  take_new self lock_type thread lock = created self lock_type thread lock lock.system
  take_new self lock_type process lock = elim (make_file lock_type lock.system) [
    | filed w ↦ created self lock_type process lock w
    | not_filed error ↦ (lock, refused error)
  ]

  -- dnf_lock_take, called by the thread `self`
  unfoldable pub take : ℕ → LockType → LockMode → Lock W → Lock W × Taken
  take self lock_type mode lock = elim (item_for lock_type mode lock.item_array) [
    | none ↦ take_new self lock_type mode lock
    | some item ↦ if not (item.owner == self) then (lock, refused (some cannot_get_lock)) else (
      emit_state (record lock { item_array = change_item (has_id item.id) ref_up lock.item_array }),
      taken item.id,
    )
  ]

  -- dnf_lock_release behind the count: the item is dropped at 0
  abbrev pub drop_at_zero : ℕ → LockItem → Lock W → Lock W
  drop_at_zero id item lock =
      if item.refcount == 0
      then record lock { item_array = remove_item (has_id id) lock.item_array }
      else lock

  -- the file of a process lock goes at 0; `none` if it could not be deleted
  abbrev pub delete_at_zero : LockItem → W → Option W
  delete_at_zero item w =
      if item.refcount == 0 && same_mode item.mode process
      then system.delete item.lock_type w
      else some w

  -- dnf_lock_release, called by the thread `self`
  unfoldable pub release : ℕ → ℕ → Lock W → Lock W × Released
  release self id lock =
      if id == 0 then (lock, kept none) else elim (find_item (has_id id) lock.item_array) [
        | none ↦ (lock, kept (some never_taken))
        | some item ↦
            if not (item.owner == self)
            then (lock, kept (some other_thread))
            else (let item' = ref_down item in
                let counted = record lock {
                  item_array = change_item (has_id id) ref_down lock.item_array;
                } in
                elim (delete_at_zero item' lock.system) as (λ w. Lock W × Released) [
                  | none ↦ (counted, kept (some not_deleted))
                  | some w ↦
                      (emit_state (drop_at_zero id item' (record counted { system = w })), released)
                ])
      ]

  -- the loop of dnf_lock_finalize from the item `i` on, by the thread that drops the lock; each round
  -- counts the index up, so the number of items is enough fuel
  pub finalize : ℕ → ℕ → ℕ → Lock W → Lock W
  finalize zero self i lock = lock
  finalize (suc fuel) self i lock = elim (get_elem? lock.item_array i) as (λ item. Lock W) [
    | none ↦ lock
    | some item ↦
        finalize fuel self (i + 1)
          (if ltb 0 item.refcount then (release self item.id lock).0 else lock)
  ]
