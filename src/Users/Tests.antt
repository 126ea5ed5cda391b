-- ===== src/Users/Tests.antt =====
-- The user store of src/user_db.c run on concrete accounts, over a small database of lists.
use os_lab.Prelude.{
  ℕ, ◌≡◌, refl, sym, ap, some_injective, Bool, true, false, List, [], ◌∷◌, Option, none, some,
  Bytes, codes, str_eq, inl, inr, arith, Bool-cases, if◌then◌else◌,
}
use os_lab.Priority.{low, high}
use os_lab.Disk.{Disk}
use os_lab.Sql.{Sql, Row}
use os_lab.Users.{
  InMemoryUser, find_user, persistent, memory, UserStore, user_store_signup, signup_persistent,
}
use os_lab.Users.Accounts.{SignsUpIn, CanHold, signup_adds}

abbrev pub row_of : Option InMemoryUser → Option Row
row_of none = none
row_of (some user) = some (record {
  username = some user.name;
  password = some user.pass;
  quota_bytes = user.quota_bytes;
})

abbrev pub insert_if :
    Option InMemoryUser → List InMemoryUser → InMemoryUser → List InMemoryUser × Bool
insert_if (some old) users user = (users, false)
insert_if none users user = (user ∷ users, true)

abbrev pub user : Bytes → Bytes → ℕ → InMemoryUser
user name pass quota = record { name = name; pass = pass; quota_bytes = quota }

pub insert_if-done :
    (o : Option InMemoryUser) (users : List InMemoryUser) (name pass : Bytes) (quota : ℕ)
    → (insert_if o users (user name pass quota)).1 ≡ true
    → (q : Bytes)
    → row_of (find_user (insert_if o users (user name pass quota)).0 q) ≡ (
        if str_eq name q
        then some (record { username = some name; password = some pass; quota_bytes = quota })
        else row_of (find_user users q))
unfolding find_user
insert_if-done (some old) users name pass quota h q = ground arith
insert_if-done none users name pass quota h q = elim (Bool-cases (str_eq name q)) [
  | inl same ↦ rw same refl
  | inr other ↦ rw other refl
]

pub insert_if-failed :
    (o : Option InMemoryUser) (users : List InMemoryUser) (new : InMemoryUser)
    → (insert_if o users new).1 ≡ false
    → (q : Bytes) → row_of (find_user (insert_if o users new).0 q) ≡ row_of (find_user users q)
insert_if-failed (some old) users new h q = refl
insert_if-failed none users new h q = ground arith

abbrev pub lists : Sql
lists = record {
  Db = List InMemoryUser;
  open_db = λ path. some [];
  create_table = some;
  prepares = λ db statement. true;
  select = λ db name. row_of (find_user db name);
  insert = λ db name pass quota. insert_if (find_user db name) db (user name pass quota);
  select-insert = λ db name pass quota. insert_if-done (find_user db name) db name pass quota;
  insert_fails =
      λ db name pass quota. insert_if-failed (find_user db name) db (user name pass quota);
  select-create_table =
      λ db db' h q. ap (λ x. row_of (find_user x q)) (sym (some_injective db db' h));
}

abbrev store : UserStore lists
store = record { storage_root = codes "/srv"; storage = persistent [] }

abbrev pub nothing : Disk
nothing = record { dirs = []; files = [] }

abbrev pub ann : Bytes
ann = codes "ann"

abbrev pub secret_word : Bytes
secret_word = codes "pw"

abbrev pub signed_up : UserStore lists
signed_up = record {
  storage_root = codes "/srv";
  storage = persistent (user ann secret_word 100 ∷ []);
}

abbrev pub in_memory : UserStore lists
in_memory = record { storage_root = codes "/srv"; storage = memory (user ann secret_word 100 ∷ []) }

signup_runs :
    user_store_signup lists true false store nothing (some ann) (some secret_word) 100 high
    ≡ (signed_up, nothing, true)
unfolding user_store_signup signup_persistent find_user
signup_runs = refl

signup_adds_example :
    SignsUpIn lists in_memory
      (user_store_signup lists true true in_memory nothing
        (some (codes "bob"))
        (some secret_word)
        7
        low)
      (codes "bob")
      secret_word
      7
unfolding CanHold
signup_adds_example =
    signup_adds lists in_memory true true nothing (codes "bob") secret_word 7 low
      (omega arith, omega arith)
