-- ===== src/OldUsers/Same.antt =====
-- The accounts of src/user.c against those that src/user_db.c keeps in memory.
use os_lab.Prelude.{
  ℕ, ◌≡◌, refl, ap, ◌∙◌, Bool, true, false, List, [], ◌∷◌, Option, none, some, Bytes, inl, inr,
  Bool-cases, str_eq, map,
}
use os_lab.Priority.{TaskPriority}
use os_lab.Disk.{Disk}
use os_lab.Sql.{Sql}
use os_lab.Users.{InMemoryUser, memory, find_user, login_memory}
use os_lab.Users
use os_lab.OldUsers.{
  User, UserStore, find_node, add_unless, login_node, user_store_signup, user_store_login,
}

-- The account in the store of src/user_db.c.
abbrev pub to_memory : User → InMemoryUser
to_memory user = record { name = user.name; pass = user.pass; quota_bytes = user.quota_bytes }

abbrev found : Option (ℕ × User) → Option InMemoryUser
found none = none
found (some (node, user)) = some (to_memory user)

find_user-find_node :
    (users : List User) (name : Bytes)
    → find_user (map to_memory users) name ≡ found (find_node users name)
unfolding find_user find_node
find_user-find_node [] name = refl
find_user-find_node (user ∷ users) name = elim (Bool-cases (str_eq user.name name)) [
  | inl same ↦ rw same refl
  | inr other ↦ rw other (find_user-find_node users name)
]

-- A request of a client to a store.
pub data Query : Type 0 where
  signs_up : (allocated made : Bool) → (name pass : Bytes) → ℕ → Query
  logs_in : (name pass : Bytes) → Query

-- The answers of the store of src/user.c to requests one after the other, and the directories.
pub old_answers : UserStore → Disk → List Query → Disk × List Bool
old_answers store d [] = (d, [])
old_answers store d (signs_up allocated made name pass quota ∷ requests) =
    let (next, e, done) = user_store_signup allocated made store d name pass quota in
    let (end, answers) = old_answers next e requests in (end, done ∷ answers)
old_answers store d (logs_in name pass ∷ requests) =
    let (end, answers) = old_answers store d requests in
    (end, user_store_login store name pass ∷ answers)

module _ (sql : Sql) (priority : TaskPriority) where
  -- The store of src/user_db.c with the same accounts.
  abbrev pub in_memory : UserStore → Users.UserStore sql
  in_memory store = record {
    storage_root = store.storage_root;
    storage = memory (map to_memory store.head);
  }

  pub new_answers : Users.UserStore sql → Disk → List Query → Disk × List Bool
  new_answers store d [] = (d, [])
  new_answers store d (signs_up allocated made name pass quota ∷ requests) =
      let (next, e, done) =
        Users.user_store_signup sql allocated made store d (some name) (some pass) quota priority in
      let (end, answers) = new_answers next e requests in (end, done ∷ answers)
  new_answers store d (logs_in name pass ∷ requests) =
      let (end, answers) = new_answers store d requests in
      (end, Users.user_store_login sql store (some name) (some pass) ∷ answers)

  add_unless-same :
      (at : Option (ℕ × User)) (allocated made : Bool) (store : UserStore) (d : Disk)
      (name pass : Bytes) (quota : ℕ)
      → Users.add_unless sql
          (found at)
          (map to_memory store.head)
          allocated
          made
          (in_memory store)
          d
          name
          pass
          quota
        ≡ (let r = add_unless at allocated made store d name pass quota in
            (in_memory r.0, r.1, r.2))
  add_unless-same (some at) allocated made store d name pass quota = refl
  add_unless-same none true made store d name pass quota = refl
  add_unless-same none false made store d name pass quota = refl

  signup-same :
      (allocated made : Bool) (store : UserStore) (d : Disk) (name pass : Bytes) (quota : ℕ)
      → Users.user_store_signup sql allocated made
          (in_memory store)
          d
          (some name)
          (some pass)
          quota
          priority
        ≡ (let r = user_store_signup allocated made store d name pass quota in
            (in_memory r.0, r.1, r.2))
  unfolding user_store_signup Users.user_store_signup Users.signup_memory
  signup-same allocated made store d name pass quota =
      ap
        (λ at.
          Users.add_unless sql at (map to_memory store.head) allocated made (in_memory store) d name
            pass quota)
        (find_user-find_node store.head name)
      ∙ add_unless-same (find_node store.head name) allocated made store d name pass quota

  login_node-same :
      (at : Option (ℕ × User)) (pass : Bytes) → login_memory (found at) pass ≡ login_node at pass
  unfolding login_memory login_node
  login_node-same none pass = refl
  login_node-same (some (node, user)) pass = refl

  login-same :
      (store : UserStore) (name pass : Bytes)
      → Users.user_store_login sql (in_memory store) (some name) (some pass)
        ≡ user_store_login store name pass
  unfolding user_store_login Users.user_store_login
  login-same store name pass =
      ap (λ at. login_memory at pass) (find_user-find_node store.head name)
      ∙ login_node-same (find_node store.head name) pass

  -- To every sequence of signups and logins, whatever fails, the store of src/user.c gives the answers
  -- that src/user_db.c gives with its list in memory and the same accounts, and makes the same
  -- directories.
  pub old_answers-new :
      (store : UserStore) (d : Disk) (requests : List Query)
      → new_answers (in_memory store) d requests ≡ old_answers store d requests
  unfolding old_answers new_answers
  old_answers-new store d [] = refl
  old_answers-new store d (signs_up allocated made name pass quota ∷ requests) =
      let r = user_store_signup allocated made store d name pass quota in
      rw (signup-same allocated made store d name pass quota, old_answers-new r.0 r.1 requests) refl
  old_answers-new store d (logs_in name pass ∷ requests) =
      rw (login-same store name pass, old_answers-new store d requests) refl
