-- ===== src/OldUsers/Destroy.antt =====
-- user_store_destroy of src/user.c: the calls that it makes, and what they give back.
use os_lab.Prelude.{◌≡◌, refl, List, [], ◌∷◌, ◌++◌, Option, none, some, true, length, arith}
use os_lab.OldUsers.{User, UserStore}
use os_lab.Users.Held.{
  Call, Held, nothing_held, run, live, release, lock, unlock, visit, destroy_account_mutex,
  free_account, destroy_mutex, free_store,
}
use os_lab.Users.Calls.Laws.{addresses}

free_nodes : List User → List Call
free_nodes [] = []
free_nodes (user ∷ users) =
    visit (length users)
    ∷ destroy_account_mutex (length users)
    ∷ free_account (length users)
    ∷ free_nodes users

-- `none` is NULL.
user_store_destroy : Option UserStore → List Call
user_store_destroy none = []
user_store_destroy (some store) =
    lock ∷ (free_nodes store.head ++ (unlock ∷ destroy_mutex ∷ free_store ∷ []))

abbrev owned : UserStore → Held
owned store = record nothing_held { store = true; mutex = true; accounts = addresses store.head }

run-free_nodes :
    (users : List User) (calls : List Call) (h : Held)
    → h.is_locked ≡ true
    → h.accounts ≡ addresses users
    → run (free_nodes users ++ calls) h ≡ run calls (record h { accounts = [] })
unfolding free_nodes run addresses live release
run-free_nodes [] calls h is_locked e = ground arith
run-free_nodes (user ∷ users) calls h is_locked e =
    ground
      (arith, run-free_nodes users calls (record h { accounts = addresses users }) is_locked refl)

-- The destruction gives back every account once, and the store behind them.
user_store_destroy_lem :
    (store : UserStore) → run (user_store_destroy (some store)) (owned store) ≡ some nothing_held
unfolding user_store_destroy run
user_store_destroy_lem store =
    run-free_nodes store.head _ (record (owned store) { is_locked = true }) refl refl
