-- ===== src/Users/Calls.antt =====
-- The calls that each operation of src/user_db.c makes, on each of its branches, in order. What the
-- operations return is in Users.
pub mod Laws
pub mod Owned
pub mod Copies
pub mod Ends
use os_lab.Prelude.{
  ℕ, ◌+◌, Bool, true, false, not, List, [], ◌∷◌, ◌++◌, Option, none, some, Bytes, codes, snprintf,
  str_eq, length, if◌then◌else◌,
}
use os_lab.Sql.{Sql, Row, check_user, insert_user, select_password, select_user}
use os_lab.Users.{InMemoryUser, UserStore, Storage, persistent, memory, find_user, root_of}
use os_lab.Users.Held.{
  Call, allocate_store, free_store, init_mutex, destroy_mutex, lock, unlock, open_database,
  close_database, execute, free_message, prepare, query, finalize, allocate_account, visit,
  free_account, allocate_copy, init_copy, destroy_copy, free_copy,
}

unfoldable pub execute_sql : Bool → List Call
execute_sql true = execute true ∷ []
execute_sql false = execute false ∷ free_message ∷ []

-- The loop over the accounts up to the first with the name. The account in front of `n` others is at
-- the address n.
pub search_calls : List InMemoryUser → Bytes → List Call
search_calls [] name = []
search_calls (user ∷ users) name =
    visit (length users) ∷ (if str_eq user.name name then [] else search_calls users name)

pub free_users : List InMemoryUser → List Call
free_users [] = []
free_users (user ∷ users) = visit (length users) ∷ free_account (length users) ∷ free_users users

abbrev pub add_calls : Option InMemoryUser → Bool → ℕ → List Call
add_calls (some user) allocated p = unlock ∷ []
add_calls none allocated p =
    if not allocated then unlock ∷ [] else allocate_account p ∷ visit p ∷ unlock ∷ []

abbrev pub row_calls : Option Row → List Call
row_calls none = finalize ∷ unlock ∷ free_copy ∷ []
row_calls (some row) = elim row.username [
  | none ↦ finalize ∷ unlock ∷ free_copy ∷ []
  | some name ↦ init_copy ∷ finalize ∷ unlock ∷ []
]

abbrev pub copy_calls : Option InMemoryUser → List Call
copy_calls none = unlock ∷ free_copy ∷ []
copy_calls (some user) = init_copy ∷ unlock ∷ []

-- `none` is NULL.
unfoldable pub unlock_user_calls : Option (Unit {0}) → List Call
unlock_user_calls none = []
unlock_user_calls (some user) = destroy_copy ∷ free_copy ∷ []

module _ (sql : Sql) where
  open sql use {Db, open_db, create_table, prepares, select}

  abbrev pub table_calls : Option Db → List Call
  table_calls none = execute_sql false ++ (close_database ∷ free_store ∷ [])
  table_calls (some db) = execute_sql true ++ (init_mutex ∷ [])

  -- `pragma` says whether foreign keys could be enabled, which the source does not check.
  abbrev pub open_calls : Bool → Option Db → List Call
  open_calls pragma none = open_database ∷ free_store ∷ []
  open_calls pragma (some db) =
      open_database ∷ (execute_sql pragma ++ table_calls (create_table db))

  abbrev pub db_path : Option Bytes → Bytes → Bytes
  db_path root file = snprintf 512 (root_of sql root ++ codes "/" ++ file)

  unfoldable pub create_calls :
      (allocated pragma use_persistent_storage : Bool) → Bytes → Option Bytes → List Call
  unfolding execute_sql
  create_calls allocated pragma use_persistent_storage database_file root =
      let opening = open_calls pragma (open_db (db_path root database_file)) in
      if not allocated
      then []
      else allocate_store ∷ (if use_persistent_storage then opening else init_mutex ∷ [])

  abbrev destroy_in : Storage sql → List Call
  destroy_in (persistent db) = destroy_mutex ∷ close_database ∷ free_store ∷ []
  destroy_in (memory users) =
      lock ∷ (free_users users ++ (unlock ∷ destroy_mutex ∷ free_store ∷ []))

  -- `none` is NULL.
  unfoldable pub destroy_calls : Option (UserStore sql) → List Call
  unfolding free_users
  destroy_calls none = []
  destroy_calls (some store) = destroy_in store.storage

  abbrev insert_calls : Db → List Call
  insert_calls db =
      if not (prepares db insert_user)
      then unlock ∷ []
      else prepare ∷ query ∷ finalize ∷ unlock ∷ []

  abbrev pub check_calls : Db → Option Row → List Call
  check_calls db (some row) = unlock ∷ []
  check_calls db none = insert_calls db

  abbrev pub signup_in_calls : Storage sql → Bool → Bytes → List Call
  signup_in_calls (persistent db) allocated name =
      lock
      ∷ (if not (prepares db check_user)
          then unlock ∷ []
          else prepare ∷ query ∷ finalize ∷ check_calls db (select db name))
  signup_in_calls (memory users) allocated name =
      lock ∷ (search_calls users name ++ add_calls (find_user users name) allocated (length users))

  unfoldable pub signup_calls : Bool → UserStore sql → (name pass : Option Bytes) → List Call
  unfolding search_calls find_user
  signup_calls allocated store (some name) (some pass) =
      signup_in_calls store.storage allocated name
  signup_calls allocated store _ _ = []

  abbrev pub login_in_calls : Storage sql → Bytes → List Call
  login_in_calls (persistent db) name =
      lock
      ∷ (if prepares db select_password
          then prepare ∷ query ∷ finalize ∷ unlock ∷ []
          else unlock ∷ [])
  login_in_calls (memory users) name = lock ∷ (search_calls users name ++ (unlock ∷ []))

  unfoldable pub login_calls : UserStore sql → (name pass : Option Bytes) → List Call
  unfolding search_calls
  login_calls store (some name) (some pass) = login_in_calls store.storage name
  login_calls store _ _ = []

  abbrev pub lock_in_calls : Storage sql → Bytes → List Call
  lock_in_calls (persistent db) name =
      lock
      ∷ (if prepares db select_user
          then prepare ∷ query ∷ row_calls (select db name)
          else unlock ∷ free_copy ∷ [])
  lock_in_calls (memory users) name =
      lock ∷ (search_calls users name ++ copy_calls (find_user users name))

  unfoldable pub lock_user_calls : Bool → UserStore sql → Option Bytes → List Call
  unfolding search_calls find_user
  lock_user_calls allocated store none = []
  lock_user_calls allocated store (some name) =
      if allocated then allocate_copy ∷ lock_in_calls store.storage name else []
