-- ===== src/Users/Calls/Ends.antt =====
-- What user_store_create and user_store_destroy of src/user_db.c hold when they return.
use os_lab.Prelude.{
  ℕ, ◌≡◌, refl, ap, ◌∙◌, ◌++◌, Bool, true, false, ◌&&◌, List, Option, none, some, Bytes, inl, inr,
  Option-cases,
}
use os_lab.Disk.{Disk}
use os_lab.Sql.{Sql}
use os_lab.Users.{UserStore, Storage, persistent, memory, user_store_create}
use os_lab.Users.Held.{Call, Held, nothing_held, run}
use os_lab.Users.Calls.{db_path, create_calls, destroy_calls, destroy_in}
use os_lab.Users.Calls.Laws.{addresses, run-append, run-free_users}
use os_lab.Users.Calls.Owned.{held_by, owned}

-- The copies of accounts that callers still have.
abbrev pub copies_only : ℕ → Held
copies_only k = record nothing_held { copies = k; copy_mutexes = k }

abbrev pub is_none {ℓ} : {A : Type ℓ} → Option A → Bool
is_none none = true
is_none (some x) = false

module _ (sql : Sql) where
  -- Whether a database is asked for that cannot be opened.
  abbrev pub open_fails : (allocated use_persistent_storage : Bool) → Bytes → Option Bytes → Bool
  open_fails allocated use_persistent_storage file root =
      allocated && use_persistent_storage && is_none (sql.open_db (db_path sql root file))

  abbrev pub owned_or : Bool → Option (UserStore sql) → Held
  owned_or handle none = record nothing_held { database = handle }
  owned_or handle (some store) = owned sql store 0

  -- No call of a creation meets its object in the wrong state, on any branch, and it ends with just the
  -- store held that it returns, and with nothing where it returns NULL; but where the database cannot
  -- be opened, NULL is returned and the handle of the database is still held.
  pub run-create :
      (allocated made pragma use_persistent_storage : Bool) (d : Disk) (file : Bytes)
      (root : Option Bytes)
      → run (create_calls sql allocated pragma use_persistent_storage file root) nothing_held
        ≡ some (
            owned_or
              (open_fails allocated use_persistent_storage file root)
              (user_store_create sql allocated made d use_persistent_storage file root).1)
  unfolding run create_calls user_store_create addresses
  run-create false made pragma p d file root = refl
  run-create true made pragma false d file root = refl
  run-create true made true true d file root =
      elim (Option-cases (sql.open_db (db_path sql root file))) [
        | inl fails ↦ rw fails refl
        | inr (db, opens) ↦ elim (Option-cases (sql.create_table db)) [
          | inl refused ↦ rw (opens, refused) refl
          | inr (db', made') ↦ rw (opens, made') refl
        ]
      ]
  run-create true made false true d file root =
      elim (Option-cases (sql.open_db (db_path sql root file))) [
        | inl fails ↦ rw fails refl
        | inr (db, opens) ↦ elim (Option-cases (sql.create_table db)) [
          | inl refused ↦ rw (opens, refused) refl
          | inr (db', made') ↦ rw (opens, made') refl
        ]
      ]

  -- The calls behind a creation that succeeds find the store, and no copy out.
  pub run-created :
      (allocated made pragma use_persistent_storage : Bool) (d disk : Disk) (file : Bytes)
      (root : Option Bytes) (store : UserStore sql) (rest : List Call)
      → user_store_create sql allocated made d use_persistent_storage file root ≡ (disk, some store)
      → run
          (create_calls sql allocated pragma use_persistent_storage file root ++ rest)
          nothing_held
        ≡ run rest (owned sql store 0)
  run-created allocated made pragma p d disk file root store rest created =
      run-append (create_calls sql allocated pragma p file root) rest nothing_held _
        (run-create allocated made pragma p d file root)
      ∙ ap (λ r. run rest (owned_or (open_fails allocated p file root) r.1)) created

  run-destroy_in :
      (s : Storage sql) (k : ℕ) → run (destroy_in sql s) (held_by sql s k) ≡ some (copies_only k)
  unfolding run
  run-destroy_in (persistent db) k = refl
  run-destroy_in (memory users) k =
      run-free_users users _ (record (held_by sql (memory users) k) { is_locked = true }) refl refl

  -- The destruction gives back all that the store holds.
  pub run-destroy :
      (store : UserStore sql) (k : ℕ)
      → run (destroy_calls sql (some store)) (owned sql store k) ≡ some (copies_only k)
  unfolding destroy_calls
  run-destroy store k = run-destroy_in store.storage k
