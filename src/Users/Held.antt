-- ===== src/Users/Held.antt =====
-- What the calls of src/user_db.c (and of the older src/user.c) hold: memory, mutexes, and the handles of SQLite. A call where its
-- object is not in the state that the library asks for is a fault, `none`.
use os_lab.Prelude.{
  ℕ, ◌+◌, ◌-◌, Bool, true, false, not, ◌&&◌, ◌||◌, List, [], ◌∷◌, Option, none, some, ltb, ◌==◌,
  if◌then◌else◌,
}

-- The accounts of the list in memory have addresses. Each copy of an account that
-- `user_store_lock_user` gives out is private to its caller, and is counted.
pub data Call : Type 0 where
  allocate_store free_store init_mutex destroy_mutex lock unlock : Call
  open_database close_database : Call
  -- A statement that is executed, and whether it succeeds; if not, there is a message to free.
  execute : Bool → Call
  free_message : Call
  -- `query` binds, steps and reads columns.
  prepare query finalize : Call
  -- The mutex in an account is the one of src/user.c.
  allocate_account visit destroy_account_mutex free_account : ℕ → Call
  allocate_copy init_copy destroy_copy free_copy : Call

pub record Held : Type 0 where
  pub store : Bool
  pub mutex : Bool
  pub is_locked : Bool
  pub database : Bool
  pub message : Bool
  pub statement : Bool
  pub accounts : List ℕ
  pub copies : ℕ
  pub copy_mutexes : ℕ

abbrev pub nothing_held : Held
nothing_held = record {
  store = false;
  mutex = false;
  is_locked = false;
  database = false;
  message = false;
  statement = false;
  accounts = [];
  copies = 0;
  copy_mutexes = 0;
}

unfoldable pub live : ℕ → List ℕ → Bool
live p [] = false
live p (q ∷ rest) = p == q || live p rest

unfoldable pub release : ℕ → List ℕ → List ℕ
release p [] = []
release p (q ∷ rest) = if p == q then rest else q ∷ release p rest

abbrev pub need : Bool → Held → Option Held
need true h = some h
need false h = none

-- The state behind a call. The database and the accounts are touched only with the mutex locked; memory
-- is freed only once the mutex in it is destroyed.
abbrev pub call : Call → Held → Option Held
call allocate_store h = need (not h.store) (record h { store = true })
call free_store h = need (h.store && not h.mutex) (record h { store = false })
call init_mutex h = need (h.store && not h.mutex) (record h { mutex = true })
call destroy_mutex h = need (h.mutex && not h.is_locked) (record h { mutex = false })
call lock h = need (h.mutex && not h.is_locked) (record h { is_locked = true })
call unlock h = need h.is_locked (record h { is_locked = false })
call open_database h = need (h.store && not h.database) (record h { database = true })
call close_database h = need (h.database && not h.statement) (record h { database = false })
call (execute done) h = need (h.database && not h.message) (record h { message = not done })
call free_message h = need h.message (record h { message = false })
call prepare h = need (h.database && h.is_locked && not h.statement) (record h { statement = true })
call query h = need (h.statement && h.is_locked) h
call finalize h = need (h.statement && h.is_locked) (record h { statement = false })
call (allocate_account p) h =
    need (h.is_locked && not (live p h.accounts)) (record h { accounts = p ∷ h.accounts })
call (visit p) h = need (h.is_locked && live p h.accounts) h
call (destroy_account_mutex p) h = need (h.is_locked && live p h.accounts) h
call (free_account p) h =
    need (h.is_locked && live p h.accounts) (record h { accounts = release p h.accounts })
call allocate_copy h = some (record h { copies = h.copies + 1 })
call init_copy h =
    need (ltb h.copy_mutexes h.copies) (record h { copy_mutexes = h.copy_mutexes + 1 })
call destroy_copy h = need (ltb 0 h.copy_mutexes) (record h { copy_mutexes = h.copy_mutexes - 1 })
call free_copy h = need (ltb h.copy_mutexes h.copies) (record h { copies = h.copies - 1 })

-- The calls one after the other, up to a fault.
unfoldable pub run : List Call → Held → Option Held
unfolding live release
run [] h = some h
run (c ∷ calls) h = elim (call c h) [ none ↦ none | some h' ↦ run calls h' ]
