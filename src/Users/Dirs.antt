-- ===== src/Users/Dirs.antt =====
-- The files of the disk behind a signup of src/user_db.c.
use os_lab.Prelude.{
  ℕ, ◌≡◌, refl, Bool, true, false, not, List, Option, none, some, Bytes, inl, inr, Bool-cases,
  Option-cases, if◌then◌else◌,
}
use os_lab.Priority.{TaskPriority}
use os_lab.Disk.{Disk, read, make_dir, read-make_dir}
use os_lab.Sql.{Sql, check_user, insert_user}
use os_lab.Users.{
  UserStore, Storage, persistent, memory, InMemoryUser, user_dir, find_user, add_unless, signup_in,
  signup_persistent, signup_memory, user_store_signup,
}

module _ (sql : Sql) where
  with_dir-read :
      (made : Bool) (store : UserStore sql) (name : Bytes) (d : Disk) (q : Bytes)
      → read (if made then make_dir d (user_dir sql store name) else d) q ≡ read d q
  with_dir-read true store name d q = read-make_dir d (user_dir sql store name) q
  with_dir-read false store name d q = refl

  persistent-read :
      (db : sql.Db) (made : Bool) (store : UserStore sql) (d : Disk) (name pass : Bytes) (quota : ℕ)
      (q : Bytes)
      → read (signup_persistent sql db made store d name pass quota).1 q ≡ read d q
  unfolding signup_persistent
  persistent-read db made store d name pass quota q =
      elim (Bool-cases (not (sql.prepares db check_user))) [
        | inl fails ↦ rw fails refl
        | inr fine ↦ elim (Option-cases (sql.select db name)) [
          | inr (row, there) ↦ rw (fine, there) refl
          | inl free ↦ elim (Bool-cases (not (sql.prepares db insert_user))) [
            | inl fails ↦ rw (fine, free, fails) refl
            | inr works ↦ elim (Bool-cases (sql.insert db name pass quota).1) [
              | inl done ↦ rw (fine, free, works, done) (with_dir-read made store name d q)
              | inr failed ↦ rw (fine, free, works, failed) refl
            ]
          ]
        ]
      ]

  add_unless-read :
      (found : Option InMemoryUser) (users : List InMemoryUser) (allocated made : Bool)
      (store : UserStore sql) (d : Disk) (name pass : Bytes) (quota : ℕ) (q : Bytes)
      → read (add_unless sql found users allocated made store d name pass quota).1 q ≡ read d q
  add_unless-read (some user) users allocated made store d name pass quota q = refl
  add_unless-read none users true made store d name pass quota q = with_dir-read made store name d q
  add_unless-read none users false made store d name pass quota q = refl

  signup_in-read :
      (s : Storage sql) (allocated made : Bool) (store : UserStore sql) (d : Disk)
      (name pass : Bytes) (quota : ℕ) (q : Bytes)
      → read (signup_in sql s allocated made store d name pass quota).1 q ≡ read d q
  unfolding signup_memory
  signup_in-read (persistent db) allocated made store d name pass quota q =
      persistent-read db made store d name pass quota q
  signup_in-read (memory users) allocated made store d name pass quota q =
      add_unless-read (find_user users name) users allocated made store d name pass quota q

  -- A signup changes no file.
  pub user_store_signup-read :
      (allocated made : Bool) (store : UserStore sql) (d : Disk) (name pass : Bytes) (quota : ℕ)
      (priority : TaskPriority) (q : Bytes)
      → read
          (user_store_signup sql allocated made store d (some name) (some pass) quota priority).1
          q
        ≡ read d q
  unfolding user_store_signup
  user_store_signup-read allocated made store d name pass quota priority q =
      signup_in-read store.storage allocated made store d name pass quota q

  persistent-storage_root :
      (db : sql.Db) (made : Bool) (store : UserStore sql) (d : Disk) (name pass : Bytes) (quota : ℕ)
      → (signup_persistent sql db made store d name pass quota).0.storage_root ≡ store.storage_root
  unfolding signup_persistent
  persistent-storage_root db made store d name pass quota =
      elim (Bool-cases (not (sql.prepares db check_user))) [
        | inl fails ↦ rw fails refl
        | inr fine ↦ elim (Option-cases (sql.select db name)) [
          | inr (row, there) ↦ rw (fine, there) refl
          | inl free ↦ elim (Bool-cases (not (sql.prepares db insert_user))) [
            | inl fails ↦ rw (fine, free, fails) refl
            | inr works ↦ rw (fine, free, works) refl
          ]
        ]
      ]

  add_unless-storage_root :
      (found : Option InMemoryUser) (users : List InMemoryUser) (allocated made : Bool)
      (store : UserStore sql) (d : Disk) (name pass : Bytes) (quota : ℕ)
      → (add_unless sql found users allocated made store d name pass quota).0.storage_root
        ≡ store.storage_root
  add_unless-storage_root (some user) users allocated made store d name pass quota = refl
  add_unless-storage_root none users true made store d name pass quota = refl
  add_unless-storage_root none users false made store d name pass quota = refl

  signup_in-storage_root :
      (s : Storage sql) (allocated made : Bool) (store : UserStore sql) (d : Disk)
      (name pass : Bytes) (quota : ℕ)
      → (signup_in sql s allocated made store d name pass quota).0.storage_root ≡ store.storage_root
  unfolding signup_memory
  signup_in-storage_root (persistent db) allocated made store d name pass quota =
      persistent-storage_root db made store d name pass quota
  signup_in-storage_root (memory users) allocated made store d name pass quota =
      add_unless-storage_root (find_user users name) users allocated made store d name pass quota

  -- A signup keeps the root of the stored files.
  pub user_store_signup-storage_root :
      (allocated made : Bool) (store : UserStore sql) (d : Disk) (name pass : Bytes) (quota : ℕ)
      (priority : TaskPriority)
      → (user_store_signup sql allocated made store d
          (some name)
          (some pass)
          quota
          priority).0.storage_root
        ≡ store.storage_root
  unfolding user_store_signup
  user_store_signup-storage_root allocated made store d name pass quota priority =
      signup_in-storage_root store.storage allocated made store d name pass quota
