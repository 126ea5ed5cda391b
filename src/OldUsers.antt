-- ===== src/OldUsers.antt =====
-- src/user.c: an earlier store of accounts, a list in memory whose accounts are shared and locked.
-- The Makefile does not compile it. The size of the field `storage_root` of its store is a parameter,
-- since the repository has no such struct any more.
pub mod Same
pub mod Locks
mod Destroy
mod Tests
use os_lab.Prelude.{
  ℕ, ◌+◌, Bool, true, false, not, List, [], ◌∷◌, ◌++◌, Option, none, some, Bytes, codes, length,
  leb, ◌==◌, str_eq, strncpy, snprintf, if◌then◌else◌,
}
use os_lab.Priority.{TaskPriority, low}
use os_lab.Disk.{Disk, make_dir}

-- `mutex` has the thread that holds the lock of the account.
pub record User : Type 0 where
  pub name : Bytes
  pub pass : Bytes
  pub mutex : Option ℕ
  pub priority : TaskPriority
  pub used_bytes : ℕ
  pub quota_bytes : ℕ

-- The list of nodes from `head` on.
pub record UserStore : Type 0 where
  pub storage_root : Bytes
  pub head : List User
  pub user_count : ℕ

-- The field `storage_root`; `none` if the root is too long.
abbrev root_field : ℕ → Option Bytes → Option Bytes
root_field size none = some []
root_field size (some []) = some []
root_field size (some (b ∷ root)) =
    if leb size (length (b ∷ root)) then none else some (strncpy size (b ∷ root))

abbrev store_with_root : Bool → Disk → Option Bytes → Disk × Option UserStore
store_with_root made d none = (d, none)
store_with_root made d (some root) = (
  if made then make_dir d root else d,
  some (record { storage_root = root; head = []; user_count = 0 }),
)

unfoldable pub user_store_create :
    ℕ → (allocated made : Bool) → Disk → Option Bytes → Disk × Option UserStore
user_store_create size allocated made d root =
    if allocated then store_with_root made d (root_field size root) else (d, none)

-- The loop over the list: the first account with the name, and the address of its node. A node is
-- known by the number of nodes behind it, which never changes.
unfoldable pub find_node : List User → Bytes → Option (ℕ × User)
find_node [] name = none
find_node (user ∷ users) name =
    let rest = find_node users name in
    if str_eq user.name name then some (length users, user) else rest

-- What `calloc`, two calls of `strncpy` and the quota make.
abbrev pub new_user : (name pass : Bytes) → ℕ → User
new_user name pass quota_bytes = record {
  name = strncpy 64 name;
  pass = strncpy 64 pass;
  mutex = none;
  priority = low;
  used_bytes = 0;
  quota_bytes = quota_bytes;
}

-- What follows the search of the list.
abbrev pub add_unless :
    Option (ℕ × User)
    → (allocated made : Bool) → UserStore
    → Disk
    → (name pass : Bytes) → ℕ
    → UserStore × Disk × Bool
add_unless (some found) allocated made store d name pass quota_bytes = (store, d, false)
add_unless none allocated made store d name pass quota_bytes =
    let added = record store {
      head = new_user name pass quota_bytes ∷ store.head;
      user_count = store.user_count + 1;
    } in
    let path = snprintf 512 (store.storage_root ++ codes "/" ++ name) in
    if not allocated then (store, d, false) else (added, if made then make_dir d path else d, true)

unfoldable pub user_store_signup :
    (allocated made : Bool) → UserStore → Disk → (name pass : Bytes) → ℕ → UserStore × Disk × Bool
unfolding find_node
user_store_signup allocated made store d name pass quota_bytes =
    add_unless (find_node store.head name) allocated made store d name pass quota_bytes

unfoldable pub login_node : Option (ℕ × User) → Bytes → Bool
login_node none pass = false
login_node (some (node, user)) pass = str_eq user.pass pass

unfoldable pub user_store_login : UserStore → (name pass : Bytes) → Bool
unfolding find_node login_node
user_store_login store name pass = login_node (find_node store.head name) pass

-- The list with another holder of the lock of a node.
unfoldable pub with_mutex : ℕ → Option ℕ → List User → List User
with_mutex node holder [] = []
with_mutex node holder (user ∷ users) =
    let rest = with_mutex node holder users in
    if length users == node then record user { mutex = holder } ∷ users else user ∷ rest

abbrev pub hold : UserStore → ℕ → Option ℕ → UserStore
hold store node holder = record store { head = with_mutex node holder store.head }

-- How `user_store_lock_user` goes on: NULL, a wait for the lock of a node with the mutex of the whole
-- store held, or the node, locked by the thread.
pub data Lock : Type 0 where
  not_found : Lock
  blocks : ℕ → Lock
  granted : ℕ → UserStore → Lock

abbrev pub lock_node : ℕ → UserStore → Option (ℕ × User) → Lock
lock_node thread store none = not_found
lock_node thread store (some (node, user)) = elim user.mutex [
  | none ↦ granted node (hold store node (some thread))
  | some holder ↦ blocks node
]

unfoldable pub user_store_lock_user : ℕ → UserStore → Bytes → Lock
unfolding find_node with_mutex
user_store_lock_user thread store name = lock_node thread store (find_node store.head name)

-- `none` is NULL. It takes no lock but that of the account, which the thread holds.
unfoldable pub user_store_unlock_user : UserStore → Option ℕ → UserStore
unfolding with_mutex
user_store_unlock_user store none = store
user_store_unlock_user store (some node) = hold store node none

-- `none` is NULL.
abbrev pub user_store_get_root : Option UserStore → Option Bytes
user_store_get_root none = none
user_store_get_root (some store) = some store.storage_root
