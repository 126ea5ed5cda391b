-- ===== src/Users/Accounts.antt =====
-- The abstract view of the user store of src/user_db.c: a map from names to accounts, which both
-- kinds of storage implement.
use os_lab.Prelude.{
  ℕ, ◌<◌, ◌≡◌, refl, sym, ap, ◌∙◌, Bool, true, false, not, List, ◌∷◌, Option, none, some, Bytes,
  length, strncpy, snprintf, codes, ◌++◌, take_all, str_eq, inl, inr, arith, Bool-cases,
  Option-cases, some_injective, if◌then◌else◌,
}
use os_lab.Priority.{TaskPriority}
use os_lab.Disk.{Disk}
use os_lab.Sql.{Sql, Row, check_user, insert_user}
use os_lab.Users.{
  root_of, InMemoryUser, find_user, add_unless, Storage, persistent, memory, UserStore,
  user_store_create, user_store_signup, signup_persistent, signup_memory,
}

-- The password is `none` where SQLite gives NULL for it.
pub record Account : Type 0 where
  pub password : Option Bytes
  pub quota_bytes : ℕ

abbrev pub row_account : Option Row → Option Account
row_account none = none
row_account (some row) = some (record { password = row.password; quota_bytes = row.quota_bytes })

abbrev pub user_account : Option InMemoryUser → Option Account
user_account none = none
user_account (some user) =
    some (record { password = some user.pass; quota_bytes = user.quota_bytes })

find_user-∷ :
    (user : InMemoryUser) (users : List InMemoryUser) (q : Bytes)
    → find_user (user ∷ users) q ≡ (if str_eq user.name q then some user else find_user users q)
unfolding find_user
find_user-∷ user users q = refl

module _ (sql : Sql) where
  open sql use {Db, select, insert, prepares, select-insert, insert_fails}

  abbrev pub account_in : Storage sql → Bytes → Option Account
  account_in (persistent db) name = row_account (select db name)
  account_in (memory users) name = user_account (find_user users name)

  abbrev pub account : UserStore sql → Bytes → Option Account
  account store = account_in store.storage

  -- What a list in memory can hold: it cuts a name and a password to 63 bytes.
  unfoldable pub CanHold : Storage sql → (name pass : Bytes) → Type 0
  CanHold (persistent db) name pass = Unit
  CanHold (memory users) name pass = (length name < 64) × (length pass < 64)

  -- What a signup does to the accounts. Where it returns true, the name was free and now has the
  -- account, and no other name's account changes; where it returns false, no account changes.
  pub record SignsUp (before after : UserStore sql) (done : Bool) (name pass : Bytes) (quota : ℕ)
      : Type 0 where
    pub was_free : done ≡ true → account before name ≡ none
    pub added :
        done ≡ true
        → (q : Bytes)
        → account after q ≡ (
            if str_eq name q
            then some (record { password = some pass; quota_bytes = quota })
            else account before q)
    pub kept : done ≡ false → (q : Bytes) → account after q ≡ account before q

  refused :
      (store : UserStore sql) (name pass : Bytes) (quota : ℕ)
      → SignsUp store store false name pass quota
  refused store name pass quota = record {
    was_free = λ h. ground arith;
    added = λ h. ground arith;
    kept = λ h q. refl;
  }

  signup_persistent-SignsUp :
      (db : Db) (made : Bool) (store : UserStore sql) (d : Disk) (name pass : Bytes) (quota : ℕ)
      → store.storage ≡ persistent db
      → SignsUp store
          (signup_persistent sql db made store d name pass quota).0
          (signup_persistent sql db made store d name pass quota).2
          name
          pass
          quota
  unfolding signup_persistent
  signup_persistent-SignsUp db made store d name pass quota is =
      elim (Bool-cases (not (prepares db check_user))) [
        | inl bad ↦ rw bad (refused store name pass quota)
        | inr good ↦ elim (Option-cases (select db name)) [
          | inr (row, found) ↦ rw (good, found) (refused store name pass quota)
          | inl free ↦ elim (Bool-cases (not (prepares db insert_user))) [
            | inl bad ↦ rw (good, free, bad) (refused store name pass quota)
            | inr fine ↦
                rw (good, free, fine)
                  (record {
                    was_free = λ h. rw (is, free);
                    added = λ h q. elim (Bool-cases (str_eq name q)) [
                      | inl same ↦ rw (select-insert db name pass quota h q, is, same) refl
                      | inr other ↦ rw (select-insert db name pass quota h q, is, other) refl
                    ];
                    kept = λ h q. rw (is, insert_fails db name pass quota h q) refl;
                  })
          ]
        ]
      ]

  consed :
      (users : List InMemoryUser) (store : UserStore sql) (name pass : Bytes) (quota : ℕ)
      → length name < 64
      → length pass < 64
      → store.storage ≡ memory users
      → find_user users name ≡ none
      → SignsUp store
          (record store {
            storage = memory (
                record { name = strncpy 64 name; pass = strncpy 64 pass; quota_bytes = quota }
                ∷ users);
          })
          true
          name
          pass
          quota
  consed users store name pass quota n p is free = record {
    was_free = λ h. rw (is, free) refl;
    added = λ h q. elim (Bool-cases (str_eq name q)) [
      | inl same ↦
          rw (take_all 63 name (omega arith), take_all 63 pass (omega arith), find_user-∷, is, same)
            refl
      | inr other ↦ rw (take_all 63 name (omega arith), find_user-∷, is, other) refl
    ];
    kept = λ h q. ground arith;
  }

  abbrev pub SignsUpIn :
      UserStore sql → UserStore sql × Disk × Bool → (name pass : Bytes) → ℕ → Type 0
  SignsUpIn store (after, d, done) name pass quota = SignsUp store after done name pass quota

  add_unless-SignsUp :
      (found : Option InMemoryUser) (users : List InMemoryUser) (allocated made : Bool)
      (store : UserStore sql) (d : Disk) (name pass : Bytes) (quota : ℕ)
      → length name < 64
      → length pass < 64
      → store.storage ≡ memory users
      → find_user users name ≡ found
      → SignsUpIn store
          (add_unless sql found users allocated made store d name pass quota)
          name
          pass
          quota
  add_unless-SignsUp (some user) users allocated made store d name pass quota n p is found =
      refused store name pass quota
  add_unless-SignsUp none users true made store d name pass quota n p is free =
      consed users store name pass quota n p is free
  add_unless-SignsUp none users false made store d name pass quota n p is free =
      refused store name pass quota

  signup_at :
      (s : Storage sql) (root : Bytes) (allocated made : Bool) (d : Disk) (name pass : Bytes)
      (quota : ℕ) (priority : TaskPriority)
      → CanHold s name pass
      → SignsUpIn
          (record { storage_root = root; storage = s })
          (user_store_signup sql allocated made
            (record { storage_root = root; storage = s })
            d
            (some name)
            (some pass)
            quota
            priority)
          name
          pass
          quota
  unfolding user_store_signup signup_memory CanHold
  signup_at (persistent db) root allocated made d name pass quota priority h =
      signup_persistent-SignsUp db made (record { storage_root = root; storage = persistent db }) d
        name pass quota refl
  signup_at (memory users) root allocated made d name pass quota priority (n, p) =
      add_unless-SignsUp (find_user users name) users allocated made
        (record { storage_root = root; storage = memory users }) d name pass quota n p refl refl

  -- A signup adds one account where the name is free and it returns true, and otherwise changes
  -- none, whatever the storage. A list in memory must be able to hold the name and the password.
  pub signup_adds :
      (store : UserStore sql) (allocated made : Bool) (d : Disk) (name pass : Bytes) (quota : ℕ)
      (priority : TaskPriority)
      → CanHold store.storage name pass
      → SignsUpIn store
          (user_store_signup sql allocated made store d (some name) (some pass) quota priority)
          name
          pass
          quota
  signup_adds store = signup_at store.storage store.storage_root

  -- A store over a database that is opened again has the accounts of that database.
  pub account-create :
      (made : Bool) (d : Disk) (file : Bytes) (root : Option Bytes) (db : Db)
      (store : UserStore sql)
      → sql.open_db (snprintf 512 (root_of sql root ++ codes "/" ++ file)) ≡ some db
      → (user_store_create sql true made d true file root).1 ≡ some store
      → (q : Bytes) → account store q ≡ row_account (select db q)
  unfolding user_store_create
  account-create made d file root db store is h q = elim (Option-cases (sql.create_table db)) [
    | inl bad ↦
        let e : (user_store_create sql true made d true file root).1 ≡ none = rw (is, bad) refl in
        let clash = sym h ∙ e in ground arith
    | inr (made_db, fine) ↦
        let reopened : UserStore sql = record {
          storage_root = root_of sql root;
          storage = persistent made_db;
        } in
        let e : (user_store_create sql true made d true file root).1 ≡ some reopened =
          rw (is, fine) refl in
        let same : reopened ≡ store = some_injective reopened store (sym e ∙ h) in
        ap (λ x. account x q) (sym same)
        ∙ ap row_account (sql.select-create_table db made_db fine q)
  ]
