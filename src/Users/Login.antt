-- ===== src/Users/Login.antt =====
-- What user_store_login and user_store_lock_user of src/user_db.c read of the accounts.
use os_lab.Prelude.{
  ℕ, ◌≡◌, ◌↔◌, refl, sym, ap, ◌∙◌, Bool, true, false, Option, none, some, Bytes, str_eq, str_eq_iff,
  some_injective, inl, inr, arith, Bool-cases, Option-cases, if◌then◌else◌,
}
use os_lab.Priority.{TaskPriority, low}
use os_lab.Disk.{Disk}
use os_lab.Sql.{Sql, Row, select_password, select_user}
use os_lab.Users.{
  InMemoryUser, User, find_user, locked_row, locked_memory, user_of, password_is, login_memory,
  Storage, persistent, memory, UserStore, user_store_signup, user_store_login, user_store_lock_user,
}
use os_lab.Users.Accounts.{Account, account, row_account, user_account, CanHold, signup_adds}

unfoldable pub password_in : Option Account → Option Bytes
password_in none = none
password_in (some a) = a.password

unfoldable pub quota_in : Option Account → Option ℕ
quota_in none = none
quota_in (some a) = some a.quota_bytes

unfoldable pub opens_with : Option Account → Bytes → Bool
opens_with none pass = false
opens_with (some a) pass = elim a.password [ none ↦ false | some stored ↦ str_eq stored pass ]

opens_iff :
    (o : Option Bytes) (pass : Bytes)
    → (elim o [ none ↦ false | some stored ↦ str_eq stored pass ] ≡ true) ↔ (o ≡ some pass)
opens_iff none pass = (λ h. ground arith, λ h. ground arith)
opens_iff (some stored) pass =
    let (to, back) = str_eq_iff stored pass in
    (λ h. ap some (to h), λ h. back (some_injective stored pass h))

opens_with_iff :
    (a : Option Account) (pass : Bytes) → (opens_with a pass ≡ true) ↔ (password_in a ≡ some pass)
unfolding opens_with password_in
opens_with_iff none pass = (λ h. ground arith, λ h. ground arith)
opens_with_iff (some a) pass = opens_iff a.password pass

password_is-row :
    (o : Option Row) (pass : Bytes) → password_is o pass ≡ opens_with (row_account o) pass
unfolding password_is opens_with
password_is-row none pass = refl
password_is-row (some row) pass = refl

login_memory-user :
    (o : Option InMemoryUser) (pass : Bytes)
    → login_memory o pass ≡ opens_with (user_account o) pass
unfolding login_memory opens_with
login_memory-user none pass = refl
login_memory-user (some user) pass = refl

-- The copy that `user_store_lock_user` returns, beside the account it is of.
abbrev pub Copies : User → Option Account → Type 0
Copies u a = (u.priority ≡ low) × (u.used_bytes ≡ 0) × (quota_in a ≡ some u.quota_bytes)

user_of-Copies :
    (name : Bytes) (quota : ℕ) (u : User) (a : Option Account)
    → some (user_of name quota) ≡ some u
    → quota_in a ≡ some quota
    → Copies u a
user_of-Copies name quota u a h q =
    let e : user_of name quota ≡ u = some_injective (user_of name quota) u h in
    (
      sym (ap (λ v. v.priority) e),
      sym (ap (λ v. v.used_bytes) e),
      q ∙ ap (λ v. some v.quota_bytes) e,
    )

locked_row_lem : (o : Option Row) (u : User) → locked_row o ≡ some u → Copies u (row_account o)
unfolding locked_row quota_in
locked_row_lem none u h = ground arith
locked_row_lem (some row) u h = elim (Option-cases row.username) [
  | inl null ↦
      let e : locked_row (some row) ≡ none = rw null refl in let clash = sym h ∙ e in ground arith
  | inr (name, is) ↦
      let e : locked_row (some row) ≡ some (user_of name row.quota_bytes) = rw is refl in
      user_of-Copies name row.quota_bytes u (row_account (some row)) (sym e ∙ h) refl
]

locked_memory_lem :
    (o : Option InMemoryUser) (u : User) → locked_memory o ≡ some u → Copies u (user_account o)
unfolding locked_memory quota_in
locked_memory_lem none u h = ground arith
locked_memory_lem (some user) u h =
    user_of-Copies user.name user.quota_bytes u (user_account (some user)) h refl

module _ (sql : Sql) where
  open sql use {Db, prepares}

  -- Whether the statement of a login can be prepared.
  unfoldable pub CanLogin : Storage sql → Type 0
  CanLogin (persistent db) = prepares db select_password ≡ true
  CanLogin (memory users) = Unit

  login_at :
      (s : Storage sql) (root name pass : Bytes)
      → CanLogin s
      → user_store_login sql (record { storage_root = root; storage = s }) (some name) (some pass)
        ≡ opens_with (account sql (record { storage_root = root; storage = s }) name) pass
  unfolding user_store_login CanLogin
  login_at (persistent db) root name pass h = rw h (password_is-row (sql.select db name) pass)
  login_at (memory users) root name pass h = login_memory-user (find_user users name) pass

  login_opens :
      (store : UserStore sql) (name pass : Bytes)
      → CanLogin store.storage
      → user_store_login sql store (some name) (some pass)
        ≡ opens_with (account sql store name) pass
  login_opens store = login_at store.storage store.storage_root

  -- A login succeeds exactly where the name's account has the given password, whatever the storage.
  -- A database must be able to prepare the statement.
  pub login_iff :
      (store : UserStore sql) (name pass : Bytes)
      → CanLogin store.storage
      → (user_store_login sql store (some name) (some pass) ≡ true)
        ↔ (password_in (account sql store name) ≡ some pass)
  login_iff store name pass h =
      rw (login_opens store name pass h) (opens_with_iff (account sql store name) pass)

  lock_at :
      (s : Storage sql) (root name : Bytes) (allocated : Bool) (u : User)
      → user_store_lock_user sql allocated (record { storage_root = root; storage = s }) (some name)
        ≡ some u
      → Copies u (account sql (record { storage_root = root; storage = s }) name)
  unfolding user_store_lock_user
  lock_at s root name false u h = ground arith
  lock_at (persistent db) root name true u h =
      let store : UserStore sql = record { storage_root = root; storage = persistent db } in
      let locked = user_store_lock_user sql true store (some name) in
      elim (Bool-cases (prepares db select_user)) [
        | inl good ↦
            let e : locked ≡ locked_row (sql.select db name) = rw good refl in
            locked_row_lem (sql.select db name) u (sym e ∙ h)
        | inr bad ↦ let e : locked ≡ none = rw bad refl in let clash = sym h ∙ e in ground arith
      ]
  lock_at (memory users) root name true u h = locked_memory_lem (find_user users name) u h

  -- The user that a lock returns is a copy of an account that exists: it has the account's quota,
  -- the priority low and no used bytes, whatever the priority of the signup was.
  pub lock_user_copy :
      (store : UserStore sql) (name : Bytes) (allocated : Bool) (u : User)
      → user_store_lock_user sql allocated store (some name) ≡ some u
      → Copies u (account sql store name)
  lock_user_copy store = lock_at store.storage store.storage_root

  -- After a signup that returns true, a login with the new name succeeds with the new password and
  -- with no other, and logins with the other names succeed where they did. A list in memory must be
  -- able to hold the name and the password, and a database to prepare the statement of a login before
  -- and after.
  pub login-signup :
      (store : UserStore sql) (allocated made : Bool) (d : Disk) (name pass : Bytes) (quota : ℕ)
      (priority : TaskPriority)
      → CanHold sql store.storage name pass
      → let (after, _, done) =
          user_store_signup sql allocated made store d (some name) (some pass) quota priority in
        done ≡ true
        → CanLogin store.storage
        → CanLogin after.storage
        → (q p : Bytes)
        → user_store_login sql after (some q) (some p)
          ≡ (if str_eq name q then str_eq pass p else user_store_login sql store (some q) (some p))
  unfolding opens_with
  login-signup store allocated made d name pass quota priority holds done before after q p =
      let (next, _, _) =
        user_store_signup sql allocated made store d (some name) (some pass) quota priority in
      let adds = signup_adds sql store allocated made d name pass quota priority holds in
      rw (login_opens next q p after, login_opens store q p before, adds.added done q)
        (elim (Bool-cases (str_eq name q)) [ inl same ↦ rw same refl | inr other ↦ rw other refl ])
