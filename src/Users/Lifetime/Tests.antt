-- ===== src/Users/Lifetime/Tests.antt =====
-- The life of a user store of src/user_db.c with concrete accounts.
use os_lab.Prelude.{
  ◌≡◌, refl, true, false, List, [], ◌∷◌, ◌++◌, Option, none, some, Bytes, codes, str_eq,
}
use os_lab.Priority.{low}
use os_lab.Sql.{Sql}
use os_lab.Users.{UserStore, memory, user_store_create, user_store_signup, user_store_lock_user}
use os_lab.Users.Tests.{lists, nothing, ann, secret_word}
use os_lab.Users.Held.{
  nothing_held, run, lock, unlock, destroy_mutex, free_store, visit, allocate_account, free_account,
  allocate_copy, init_copy, destroy_copy, free_copy,
}
use os_lab.Users.Calls.{
  create_calls, destroy_calls, signup_calls, login_calls, lock_user_calls, unlock_user_calls,
}
use os_lab.Users.Calls.Ends.{copies_only, open_fails, owned_or, run-create}
use os_lab.Users.Lifetime.{
  UserRequest, signs_up, logs_in, take_copy, give_back, request_calls, serve_request, serve_all,
  calls_of, begun, life_calls, life-GivenBack,
}

abbrev root : Option Bytes
root = some (codes "/srv")

abbrev file : Bytes
file = codes "users.db"

abbrev in_memory : UserStore lists
in_memory = record { storage_root = codes "/srv"; storage = memory [] }

-- A database that cannot be opened.
abbrev no_database : Sql
no_database = record lists { open_db = λ path. none }

abbrev requests : List UserRequest
requests =
    signs_up true false (some ann) (some secret_word) 100 low
    ∷ logs_in (some ann) (some secret_word)
    ∷ take_copy true (some ann)
    ∷ give_back
    ∷ take_copy true (some ann)
    ∷ []

life_runs :
    life_calls lists requests (begun lists nothing in_memory)
    ≡ lock
      ∷ allocate_account 0
      ∷ visit 0
      ∷ unlock
      ∷ lock
      ∷ visit 0
      ∷ unlock
      ∷ allocate_copy
      ∷ lock
      ∷ visit 0
      ∷ init_copy
      ∷ unlock
      ∷ destroy_copy
      ∷ free_copy
      ∷ allocate_copy
      ∷ lock
      ∷ visit 0
      ∷ init_copy
      ∷ unlock
      ∷ lock
      ∷ visit 0
      ∷ free_account 0
      ∷ unlock
      ∷ destroy_mutex
      ∷ free_store
      ∷ []
unfolding serve_all serve_request calls_of request_calls user_store_signup user_store_lock_user
    destroy_calls signup_calls login_calls lock_user_calls unlock_user_calls str_eq
life_runs = refl

handle_kept :
    run (create_calls no_database true true true file root) nothing_held
    ≡ some (record nothing_held { database = true })
unfolding run create_calls
handle_kept = refl

run-create_example :
    run (create_calls no_database true true true file root) nothing_held
    ≡ some (
        owned_or no_database
          (open_fails no_database true true file root)
          (user_store_create no_database true true nothing true file root).1)
run-create_example = run-create no_database true true true true nothing file root

life-GivenBack_example :
    run
      (create_calls lists true true false file root
        ++ life_calls lists requests (begun lists nothing in_memory))
      nothing_held
    ≡ some (copies_only (serve_all lists requests (begun lists nothing in_memory)).copies)
unfolding user_store_create
life-GivenBack_example =
    life-GivenBack lists true false true false nothing nothing file root in_memory requests refl
