-- ===== src/Users/Calls/Owned.antt =====
-- What the operations of src/user_db.c hold when they return: the store with its mutex, the database or
-- the accounts, and the copies that are given out.
use os_lab.Prelude.{
  ℕ, ◌≡◌, refl, sym, ap, ◌∙◌, Bool, true, false, not, List, [], ◌++◌, Option, none, some, Bytes,
  length, inl, inr, arith, Bool-cases, Option-cases,
}
use os_lab.Priority.{TaskPriority}
use os_lab.Disk.{Disk}
use os_lab.Sql.{Sql, check_user, insert_user}
use os_lab.Users.{
  InMemoryUser, UserStore, Storage, persistent, memory, find_user, add_unless, signup_in,
  signup_persistent, signup_memory, user_store_signup,
}
use os_lab.Users.Held.{Call, Held, run, live}
use os_lab.Users.Calls.{search_calls, add_calls, signup_in_calls, signup_calls}
use os_lab.Users.Calls.Laws.{addresses, live-addresses, run-search}

module _ (sql : Sql) where
  abbrev uses_database : Storage sql → Bool
  uses_database (persistent db) = true
  uses_database (memory users) = false

  abbrev accounts_of : Storage sql → List ℕ
  accounts_of (persistent db) = []
  accounts_of (memory users) = addresses users

  -- What a store holds behind its operations, with `k` copies of accounts given out.
  abbrev pub held_by : Storage sql → ℕ → Held
  held_by storage k = record {
    store = true;
    mutex = true;
    is_locked = false;
    database = uses_database storage;
    message = false;
    statement = false;
    accounts = accounts_of storage;
    copies = k;
    copy_mutexes = k;
  }

  abbrev pub owned : UserStore sql → ℕ → Held
  owned store k = held_by store.storage k

  pub search-owned :
      (users : List InMemoryUser) (name : Bytes) (calls : List Call) (h : Held)
      → h.is_locked ≡ true
      → h.accounts ≡ addresses users
      → run (search_calls users name ++ calls) h ≡ run calls h
  search-owned users name calls h is_locked e =
      run-search users name calls h is_locked λ p less. rw (e, live-addresses) (ground arith)

  signup_persistent-held :
      (db : sql.Db) (made : Bool) (store : UserStore sql) (d : Disk) (name pass : Bytes)
      (quota k : ℕ)
      → store.storage ≡ persistent db
      → held_by (signup_persistent sql db made store d name pass quota).0.storage k
        ≡ held_by (persistent db) k
  unfolding signup_persistent
  signup_persistent-held db made store d name pass quota k is =
      elim (Bool-cases (not (sql.prepares db check_user))) [
        | inl fails ↦ rw (fails, is) refl
        | inr fine ↦ elim (Option-cases (sql.select db name)) [
          | inr (row, there) ↦ rw (fine, there, is) refl
          | inl free ↦ elim (Bool-cases (not (sql.prepares db insert_user))) [
            | inl fails ↦ rw (fine, free, fails, is) refl
            | inr works ↦ rw (fine, free, works) refl
          ]
        ]
      ]

  run-signup_persistent :
      (db : sql.Db) (allocated : Bool) (name : Bytes) (k : ℕ)
      → run (signup_in_calls sql (persistent db) allocated name) (held_by (persistent db) k)
        ≡ some (held_by (persistent db) k)
  unfolding run
  run-signup_persistent db allocated name k = elim (Bool-cases (not (sql.prepares db check_user))) [
    | inl fails ↦ rw fails refl
    | inr fine ↦ elim (Option-cases (sql.select db name)) [
      | inr (row, there) ↦ rw (fine, there) refl
      | inl free ↦ elim (Bool-cases (not (sql.prepares db insert_user))) [
        | inl fails ↦ rw (fine, free, fails) refl
        | inr works ↦ rw (fine, free, works) refl
      ]
    ]
  ]

  run-add :
      (found : Option InMemoryUser) (users : List InMemoryUser) (allocated made : Bool)
      (store : UserStore sql) (d : Disk) (name pass : Bytes) (quota k : ℕ)
      → store.storage ≡ memory users
      → run
          (add_calls found allocated (length users))
          (record (held_by (memory users) k) { is_locked = true })
        ≡ some (
            held_by (add_unless sql found users allocated made store d name pass quota).0.storage k)
  unfolding run addresses live
  run-add (some user) users allocated made store d name pass quota k is = rw is refl
  run-add none users false made store d name pass quota k is = rw is refl
  run-add none users true made store d name pass quota k is =
      ground (arith, live-addresses users (length users))

  run-signup_in :
      (s : Storage sql) (allocated made : Bool) (store : UserStore sql) (d : Disk)
      (name pass : Bytes) (quota k : ℕ)
      → store.storage ≡ s
      → run (signup_in_calls sql s allocated name) (held_by s k)
        ≡ some (owned (signup_in sql s allocated made store d name pass quota).0 k)
  unfolding signup_memory
  run-signup_in (persistent db) allocated made store d name pass quota k is =
      run-signup_persistent db allocated name k
      ∙ ap some (sym (signup_persistent-held db made store d name pass quota k is))
  run-signup_in (memory users) allocated made store d name pass quota k is =
      unfold run in
      search-owned users name (add_calls (find_user users name) allocated (length users))
        (record (held_by (memory users) k) { is_locked = true }) refl refl
      ∙ run-add (find_user users name) users allocated made store d name pass quota k is

  -- A signup ends with just the store held, as it then is.
  pub run-signup :
      (allocated made : Bool) (store : UserStore sql) (d : Disk) (name pass : Option Bytes)
      (quota : ℕ) (priority : TaskPriority) (k : ℕ)
      → run (signup_calls sql allocated store name pass) (owned store k)
        ≡ some (owned (user_store_signup sql allocated made store d name pass quota priority).0 k)
  unfolding signup_calls user_store_signup run
  run-signup allocated made store d (some name) (some pass) quota priority k =
      run-signup_in store.storage allocated made store d name pass quota k refl
  run-signup allocated made store d (some name) none quota priority k = refl
  run-signup allocated made store d none pass quota priority k = refl
