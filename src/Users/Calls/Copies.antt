-- ===== src/Users/Calls/Copies.antt =====
-- What login, user_store_lock_user and user_store_unlock_user of src/user_db.c hold when they return.
use os_lab.Prelude.{
  ℕ, ◌+◌, ◌≡◌, refl, ◌∙◌, Bool, true, false, Option, none, some, Bytes, arith, inl, inr, Bool-cases,
  Option-cases,
}
use os_lab.Sql.{Sql, Row, select_password, select_user}
use os_lab.Users.{
  InMemoryUser, User, UserStore, Storage, persistent, memory, find_user, locked_row, locked_memory,
  user_store_lock_user, lock_in,
}
use os_lab.Users.Held.{run}
use os_lab.Users.Calls.{
  row_calls, copy_calls, unlock_user_calls, login_in_calls, login_calls, lock_in_calls,
  lock_user_calls,
}
use os_lab.Users.Calls.Owned.{held_by, owned, search-owned}

-- The copies behind a call that gives one out, or NULL.
abbrev pub one_more : Option User → ℕ → ℕ
one_more none k = k
one_more (some user) k = k + 1

module _ (sql : Sql) where
  run-login_in :
      (s : Storage sql) (name : Bytes) (k : ℕ)
      → run (login_in_calls sql s name) (held_by sql s k) ≡ some (held_by sql s k)
  unfolding run
  run-login_in (persistent db) name k = elim (Bool-cases (sql.prepares db select_password)) [
    | inl works ↦ rw works refl
    | inr fails ↦ rw fails refl
  ]
  run-login_in (memory users) name k =
      search-owned sql users name _ (record (held_by sql (memory users) k) { is_locked = true })
        refl refl

  -- A login ends with what was held before it.
  pub run-login :
      (store : UserStore sql) (name pass : Option Bytes) (k : ℕ)
      → run (login_calls sql store name pass) (owned sql store k) ≡ some (owned sql store k)
  unfolding login_calls run
  run-login store (some name) (some pass) k = run-login_in store.storage name k
  run-login store (some name) none k = refl
  run-login store none pass k = refl

  -- The state in which a row is looked at: with the copy, the mutex locked and the statement open.
  run-row :
      (o : Option Row) (db : sql.Db) (k : ℕ)
      → run (row_calls o) (record (held_by sql (persistent db) k) {
        is_locked = true;
        statement = true;
        copies = k + 1;
      })
        ≡ some (held_by sql (persistent db) (one_more (locked_row o) k))
  unfolding run locked_row
  run-row none db k = ground arith
  run-row (some row) db k = elim (Option-cases row.username) [
    | inl null ↦ rw null (ground arith)
    | inr (name, there) ↦ rw there (ground arith)
  ]

  run-copy :
      (found : Option InMemoryUser) (s : Storage sql) (k : ℕ)
      → run (copy_calls found) (record (held_by sql s k) { is_locked = true; copies = k + 1 })
        ≡ some (held_by sql s (one_more (locked_memory found) k))
  unfolding run locked_memory
  run-copy none s k = ground arith
  run-copy (some user) s k = ground arith

  run-lock_in :
      (s : Storage sql) (name : Bytes) (k : ℕ)
      → run (lock_in_calls sql s name) (record (held_by sql s k) { copies = k + 1 })
        ≡ some (held_by sql s (one_more (lock_in sql s name) k))
  unfolding run
  run-lock_in (persistent db) name k = elim (Bool-cases (sql.prepares db select_user)) [
    | inl works ↦ rw works (run-row (sql.select db name) db k)
    | inr fails ↦ rw fails (ground arith)
  ]
  run-lock_in (memory users) name k =
      search-owned sql users name (copy_calls (find_user users name))
        (record (held_by sql (memory users) k) { is_locked = true; copies = k + 1 }) refl refl
      ∙ run-copy (find_user users name) (memory users) k

  -- `user_store_lock_user` ends with one copy more where it returns one.
  pub run-lock_user :
      (allocated : Bool) (store : UserStore sql) (name : Option Bytes) (k : ℕ)
      → run (lock_user_calls sql allocated store name) (owned sql store k)
        ≡ some (owned sql store (one_more (user_store_lock_user sql allocated store name) k))
  unfolding lock_user_calls user_store_lock_user run
  run-lock_user allocated store none k = refl
  run-lock_user true store (some name) k = run-lock_in store.storage name k
  run-lock_user false store (some name) k = refl

  -- `user_store_unlock_user` gives one copy back.
  pub run-unlock_user :
      (store : UserStore sql) (k : ℕ)
      → run (unlock_user_calls (some tt)) (owned sql store (k + 1)) ≡ some (owned sql store k)
  unfolding unlock_user_calls run
  run-unlock_user store k = ground arith
