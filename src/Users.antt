-- ===== src/Users.antt =====
-- include/user.h and src/user_db.c: the accounts, in a SQLite database or in a list in memory.
-- Each operation is one critical section of the store's mutex.
pub mod Accounts
pub mod Login
pub mod Dirs
pub mod Held
pub mod Calls
pub mod Lifetime
pub mod Tests
use os_lab.Prelude.{
  ℕ, ◌+◌, Bool, true, false, not, ◌&&◌, List, [], ◌∷◌, ◌++◌, Option, none, some, Bytes, codes,
  str_eq, strncpy, snprintf, if◌then◌else◌,
}
use os_lab.Priority.{TaskPriority, low}
use os_lab.Disk.{Disk, make_dir}
use os_lab.Sql.{Sql, Statement, check_user, insert_user, select_password, select_user, Row}

pub record InMemoryUser : Type 0 where
  pub name : Bytes
  pub pass : Bytes
  pub quota_bytes : ℕ

pub record User : Type 0 where
  pub name : Bytes
  pub pass : Bytes
  pub priority : TaskPriority
  pub used_bytes : ℕ
  pub quota_bytes : ℕ

-- The first account of the list with the name.
unfoldable pub find_user : List InMemoryUser → Bytes → Option InMemoryUser
find_user [] name = none
find_user (user ∷ users) name =
    let rest = find_user users name in if str_eq user.name name then some user else rest

-- `calloc` gives a zeroed user, into which the name and the quota are copied.
abbrev pub user_of : Bytes → ℕ → User
user_of name quota = record {
  name = strncpy 64 name;
  pass = [];
  priority = low;
  used_bytes = 0;
  quota_bytes = quota;
}

unfoldable pub locked_row : Option Row → Option User
locked_row none = none
locked_row (some row) = elim row.username [
  | none ↦ none
  | some name ↦ some (user_of name row.quota_bytes)
]

unfoldable pub password_is : Option Row → Bytes → Bool
password_is none pass = false
password_is (some row) pass = elim row.password [ none ↦ false | some stored ↦ str_eq stored pass ]

unfoldable pub login_memory : Option InMemoryUser → Bytes → Bool
login_memory none pass = false
login_memory (some user) pass = str_eq user.pass pass

unfoldable pub locked_memory : Option InMemoryUser → Option User
locked_memory none = none
locked_memory (some user) = some (user_of user.name user.quota_bytes)

module _ (sql : Sql) where
  open sql use {Db, open_db, create_table, prepares, select, insert}

  pub data Storage : Type 0 where
    persistent : Db → Storage
    memory : List InMemoryUser → Storage

  pub record UserStore : Type 0 where
    pub storage_root : Bytes
    pub storage : Storage

  -- `root && *root`: an empty or absent root leaves the zeroed field.
  abbrev pub root_of : Option Bytes → Bytes
  root_of none = []
  root_of (some root) = strncpy 256 root

  -- The database behind the store: opened, with its table.
  abbrev opened : Bytes → Bytes → Option Db
  opened root file = elim (open_db (snprintf 512 (root ++ codes "/" ++ file))) [
    | none ↦ none
    | some db ↦ create_table db
  ]

  -- The directory of the storage root, made where a root is given and `mkdir` succeeds.
  abbrev with_root : Bool → Option Bytes → Disk → Disk
  with_root made none d = d
  with_root made (some []) d = d
  with_root made (some (b ∷ root)) d = if made then make_dir d (strncpy 256 (b ∷ root)) else d

  -- `allocated` says whether `calloc` succeeded; `use_persistent_storage` and
  -- `database_file` are the configuration.
  unfoldable pub user_store_create :
      (allocated made : Bool)
      → Disk
      → Bool
      → (database_file : Bytes) → Option Bytes
      → Disk × Option UserStore
  user_store_create allocated made d use_persistent_storage database_file root =
      let in_memory : UserStore = record { storage_root = root_of root; storage = memory [] } in
      let on_disk : Option UserStore = elim (opened (root_of root) database_file) [
        | none ↦ none
        | some db ↦ some (record { storage_root = root_of root; storage = persistent db })
      ] in
      if not allocated
      then (d, none)
      else (with_root made root d, if use_persistent_storage then on_disk else some in_memory)

  -- The directory that a signup makes for the user, where `mkdir` succeeds.
  abbrev pub user_dir : UserStore → Bytes → Bytes
  user_dir store name = snprintf 512 (store.storage_root ++ codes "/" ++ name)

  abbrev with_dir : Bool → UserStore → Bytes → Disk → Disk
  with_dir made store name d = if made then make_dir d (user_dir store name) else d

  unfoldable pub signup_persistent :
      Db → Bool → UserStore → Disk → (name pass : Bytes) → ℕ → UserStore × Disk × Bool
  signup_persistent db made store d name pass quota =
      let (db', success) = insert db name pass quota in
      let inserted : UserStore = record store { storage = persistent db' } in
      if not (prepares db check_user) then (store, d, false) else elim (select db name) [
        | some _ ↦ (store, d, false)
        | none ↦
            if not (prepares db insert_user)
            then (store, d, false)
            else (inserted, (if success then with_dir made store name d else d), success)
      ]

  -- What follows the search of the list.
  abbrev pub add_unless :
      Option InMemoryUser
      → List InMemoryUser
      → (allocated made : Bool) → UserStore
      → Disk
      → (name pass : Bytes) → ℕ
      → UserStore × Disk × Bool
  add_unless (some user) users allocated made store d name pass quota = (store, d, false)
  add_unless none users allocated made store d name pass quota =
      let user : InMemoryUser = record {
        name = strncpy 64 name;
        pass = strncpy 64 pass;
        quota_bytes = quota;
      } in
      let added : UserStore = record store { storage = memory (user ∷ users) } in
      if not allocated then (store, d, false) else (added, with_dir made store name d, true)

  unfoldable pub signup_memory :
      List InMemoryUser
      → (allocated made : Bool) → UserStore
      → Disk
      → (name pass : Bytes) → ℕ
      → UserStore × Disk × Bool
  signup_memory users allocated made store d name pass quota =
      add_unless (find_user users name) users allocated made store d name pass quota

  abbrev pub signup_in :
      Storage
      → (allocated made : Bool) → UserStore
      → Disk
      → (name pass : Bytes) → ℕ
      → UserStore × Disk × Bool
  signup_in (persistent db) allocated made = signup_persistent db made
  signup_in (memory users) allocated made = signup_memory users allocated made

  -- The priority is not used. A null pointer is `none`.
  unfoldable pub user_store_signup :
      (allocated made : Bool)
      → UserStore
      → Disk
      → (name pass : Option Bytes) → ℕ
      → TaskPriority
      → UserStore × Disk × Bool
  unfolding signup_persistent signup_memory find_user
  user_store_signup allocated made store d (some name) (some pass) quota priority =
      signup_in store.storage allocated made store d name pass quota
  user_store_signup allocated made store d _ _ quota priority = (store, d, false)

  abbrev login_in : Storage → (name pass : Bytes) → Bool
  login_in (persistent db) name pass =
      if prepares db select_password then password_is (select db name) pass else false
  login_in (memory users) name pass = login_memory (find_user users name) pass

  unfoldable pub user_store_login : UserStore → (name pass : Option Bytes) → Bool
  unfolding password_is login_memory find_user
  user_store_login store (some name) (some pass) = login_in store.storage name pass
  user_store_login store _ _ = false

  abbrev lock_in : Storage → Bytes → Option User
  lock_in (persistent db) name =
      if prepares db select_user then locked_row (select db name) else none
  lock_in (memory users) name = locked_memory (find_user users name)

  -- The source locks nothing: it makes a copy of the account, which `user_store_unlock_user` frees.
  unfoldable pub user_store_lock_user : Bool → UserStore → Option Bytes → Option User
  unfolding locked_row locked_memory find_user
  user_store_lock_user allocated store none = none
  user_store_lock_user allocated store (some name) =
      if allocated then lock_in store.storage name else none

  -- `none` is NULL.
  abbrev user_store_get_root : Option UserStore → Option Bytes
  user_store_get_root none = none
  user_store_get_root (some store) = some store.storage_root
