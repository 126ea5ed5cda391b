-- ===== src/Users/Lifetime.antt =====
-- The life of the user store of src/user_db.c: its creation, the operations that threads call one after
-- the other, and its destruction.
pub mod Tests
use os_lab.Prelude.{
  ℕ, ◌+◌, ◌-◌, ◌≡◌, refl, ◌∙◌, Bool, true, false, List, [], ◌∷◌, ◌++◌, Option, none, some, Bytes,
  sym, ap, arith, if◌then◌else◌, zero, suc,
}
use mathlib.Core.List.{append_assoc}
use os_lab.Priority.{TaskPriority}
use os_lab.Disk.{Disk}
use os_lab.Sql.{Sql}
use os_lab.Users.{UserStore, user_store_create, user_store_signup, user_store_lock_user}
use os_lab.Users.Held.{Call, Held, nothing_held, run}
use os_lab.Users.Calls.{
  create_calls, destroy_calls, signup_calls, login_calls, lock_user_calls, unlock_user_calls,
}
use os_lab.Users.Calls.Laws.{run-append}
use os_lab.Users.Calls.Owned.{owned, run-signup}
use os_lab.Users.Calls.Copies.{one_more, run-login, run-lock_user, run-unlock_user}
use os_lab.Users.Calls.Ends.{copies_only, run-created, run-destroy}

-- A call of an operation, with how its calls of the C library go. `give_back` unlocks a copy that is
-- still out; where none is, the caller has NULL.
pub data UserRequest : Type 0 where
  signs_up : (allocated made : Bool) → (name pass : Option Bytes) → ℕ → TaskPriority → UserRequest
  logs_in : (name pass : Option Bytes) → UserRequest
  take_copy : Bool → Option Bytes → UserRequest
  give_back : UserRequest

abbrev pub copy_of : ℕ → Option (Unit {0})
copy_of zero = none
copy_of (suc k) = some tt

module _ (sql : Sql) where
  -- The store, the disk, and the copies that are out.
  pub record Living : Type 0 where
    pub store : UserStore sql
    pub disk : Disk
    pub copies : ℕ

  unfoldable pub request_calls : UserRequest → Living → List Call
  request_calls (signs_up allocated made name pass quota priority) l =
      signup_calls sql allocated l.store name pass
  request_calls (logs_in name pass) l = login_calls sql l.store name pass
  request_calls (take_copy allocated name) l = lock_user_calls sql allocated l.store name
  request_calls give_back l = unlock_user_calls (copy_of l.copies)

  unfoldable pub serve_request : UserRequest → Living → Living
  serve_request (signs_up allocated made name pass quota priority) l =
      let (store, disk, _) =
        user_store_signup sql allocated made l.store l.disk name pass quota priority in
      record l { store = store; disk = disk }
  serve_request (logs_in name pass) l = l
  serve_request (take_copy allocated name) l = record l {
    copies = one_more (user_store_lock_user sql allocated l.store name) l.copies;
  }
  serve_request give_back l = record l { copies = l.copies - 1 }

  unfoldable pub serve_all : List UserRequest → Living → Living
  serve_all [] l = l
  serve_all (r ∷ requests) l = serve_all requests (serve_request r l)

  unfoldable pub calls_of : List UserRequest → Living → List Call
  calls_of [] l = []
  calls_of (r ∷ requests) l = request_calls r l ++ calls_of requests (serve_request r l)

  run-give_back :
      (l : Living) (k : ℕ)
      → run (unlock_user_calls (copy_of k)) (owned sql l.store k) ≡ some (owned sql l.store (k - 1))
  unfolding unlock_user_calls run
  run-give_back l zero = ground arith
  run-give_back l (suc k) = ground (arith, run-unlock_user sql l.store k)

  run-request :
      (r : UserRequest) (l : Living)
      → run (request_calls r l) (owned sql l.store l.copies)
        ≡ some (owned sql (serve_request r l).store (serve_request r l).copies)
  unfolding request_calls serve_request
  run-request (signs_up allocated made name pass quota priority) l =
      run-signup sql allocated made l.store l.disk name pass quota priority l.copies
  run-request (logs_in name pass) l = run-login sql l.store name pass l.copies
  run-request (take_copy allocated name) l = run-lock_user sql allocated l.store name l.copies
  run-request give_back l = run-give_back l l.copies

  pub run-all :
      (requests : List UserRequest) (l : Living) (rest : List Call)
      → run (calls_of requests l ++ rest) (owned sql l.store l.copies)
        ≡ run rest (owned sql (serve_all requests l).store (serve_all requests l).copies)
  unfolding calls_of serve_all
  run-all [] l rest = refl
  run-all (r ∷ requests) l rest =
      ap (λ calls. run calls (owned sql l.store l.copies))
        (append_assoc (request_calls r l) (calls_of requests (serve_request r l)) rest)
      ∙ run-append (request_calls r l) _ _ _ (run-request r l)
      ∙ run-all requests (serve_request r l) rest

  abbrev pub begun : Disk → UserStore sql → Living
  begun disk store = record { store = store; disk = disk; copies = 0 }

  -- The calls of the requests, and of the destruction behind them.
  abbrev pub life_calls : List UserRequest → Living → List Call
  life_calls requests l =
      calls_of requests l ++ destroy_calls sql (some (serve_all requests l).store)

  -- A store that is created, used in any way, and destroyed: no call meets its object in the wrong
  -- state (the database and the accounts are used with the mutex locked, no account is read or freed
  -- after it was freed, no lock is taken twice), and at the end all is given back but the copies that
  -- callers still have.
  pub life-GivenBack :
      (allocated made pragma use_persistent_storage : Bool) (d disk : Disk) (file : Bytes)
      (root : Option Bytes) (store : UserStore sql) (requests : List UserRequest)
      → user_store_create sql allocated made d use_persistent_storage file root ≡ (disk, some store)
      → run
          (create_calls sql allocated pragma use_persistent_storage file root
            ++ life_calls requests (begun disk store))
          nothing_held
        ≡ some (copies_only (serve_all requests (begun disk store)).copies)
  life-GivenBack allocated made pragma p d disk file root store requests created =
      run-created sql allocated made pragma p d disk file root store _ created
      ∙ run-all requests (begun disk store) _
      ∙ run-destroy sql (serve_all requests (begun disk store)).store
          (serve_all requests (begun disk store)).copies
