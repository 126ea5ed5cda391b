-- ===== src/Worker/Requests.antt =====
-- src/worker.c: the operations of the user store that the worker calls for a task, in order.
use os_lab.Prelude.{
  ◌-◌, ◌*◌, ◌^◌, ◌≡◌, refl, sym, ap, ◌∙◌, ◌||◌, Bool, List, [], ◌∷◌, ◌++◌, Option, none, some,
  Bytes, str_eq, ℤ, inl, inr, Bool-cases, if◌then◌else◌,
}
use os_lab.Disk.{Disk}
use os_lab.Task.{Task, CommandType, signup, login, upload, download, delete, list, unknown, quit}
use os_lab.Sql.{Sql}
use os_lab.Responses.{Response}
use os_lab.Users.{User, user_store_create, user_store_lock_user}
use os_lab.Users.Held.{Call, nothing_held, run}
use os_lab.Users.Calls.{create_calls, destroy_calls}
use os_lab.Users.Calls.Ends.{run-created, run-destroy}
use os_lab.Users.Calls.Copies.{one_more}
use os_lab.Users.Calls.Owned.{owned}
use os_lab.Users.Lifetime.{
  UserRequest, signs_up, logs_in, take_copy, give_back, Living, calls_of, serve_request, serve_all,
  run-all,
}
use os_lab.Worker.{Outside, World, locked, dispatch, handle_task}
use os_lab.Worker.Loop.{handle_all}
use mathlib.Core.List.{append_assoc}
use os_lab.Worker.Stores.{
  handle_signup-store, handle_login-store, handle_upload-store, handle_download-store,
  handle_delete-store, handle_list-store,
}

module _ (sql : Sql) (cmp : Response → Response → ℤ) where
  -- What is done between the lock of the user and the unlock, where there is the user.
  abbrev pub while_held : Option User → List UserRequest → List UserRequest
  while_held none inner = []
  while_held (some u) inner = inner ++ (give_back ∷ [])

  abbrev pub with_user : Outside → World sql cmp → Task → List UserRequest → List UserRequest
  with_user o w t inner =
      take_copy o.allocates_user (some t.username) ∷ while_held (locked sql cmp o w t) inner

  abbrev pub requests_for : CommandType → Outside → World sql cmp → Task → List UserRequest
  requests_for signup o w t =
      signs_up o.allocates_account o.calls.mkdir_made (some t.username) (some t.password)
        (100 * 2 ^ 20) t.priority
      ∷ []
  requests_for login o w t = with_user o w t (logs_in (some t.username) (some t.password) ∷ [])
  requests_for upload o w t =
      if str_eq t.path [] || str_eq t.tmpfile [] then [] else with_user o w t []
  requests_for download o w t = if str_eq t.path [] then [] else with_user o w t []
  requests_for delete o w t = with_user o w t []
  requests_for list o w t = with_user o w t []
  requests_for unknown o w t = []
  requests_for quit o w t = []

  unfoldable pub task_requests : Outside → World sql cmp → Task → List UserRequest
  unfolding user_store_lock_user
  task_requests o w t = requests_for t.type o w t

  -- The user store within the world of a worker, with no copy out.
  abbrev pub living : World sql cmp → Living sql
  living w = record { store = w.user_store; disk = w.disk; copies = 0 }

  -- The requests leave the accounts as `after` has them, and no copy out.
  abbrev Leaves : World sql cmp → Living sql → Type 0
  Leaves after l = (l.store ≡ after.user_store) × (l.copies ≡ 0)

  module _ (o : Outside) (w : World sql cmp) (t : Task) where
    module _ (inner : List UserRequest)
        (quiet : (l : Living sql)
          → serve_all sql (inner ++ (give_back ∷ [])) l ≡ record l { copies = l.copies - 1 }) where
      taken : Living sql
      unfolding serve_request
      taken = serve_request sql (take_copy o.allocates_user (some t.username)) (living w)

      held-Leaves :
          (found : Option User)
          → locked sql cmp o w t ≡ found
          → Leaves w (serve_all sql (while_held found inner) taken)
      unfolding taken serve_all
      held-Leaves none missing = (refl, ap (λ u. one_more u 0) missing)
      held-Leaves (some u) there = (
        ap (λ l. l.store) (quiet taken),
        ap (λ l. l.copies) (quiet taken) ∙ ap (λ u. one_more u 0 - 1) there,
      )

      with_user-Leaves : Leaves w (serve_all sql (with_user o w t inner) (living w))
      unfolding taken serve_all
      with_user-Leaves = held-Leaves (locked sql cmp o w t) refl

    alone-Leaves : Leaves w (serve_all sql (with_user o w t []) (living w))
    unfolding serve_all serve_request
    alone-Leaves = with_user-Leaves [] (λ l. refl)

    login-Leaves : Leaves w (serve_all sql (requests_for login o w t) (living w))
    unfolding serve_all serve_request
    login-Leaves = with_user-Leaves (logs_in (some t.username) (some t.password) ∷ []) (λ l. refl)

    upload-Leaves : Leaves w (serve_all sql (requests_for upload o w t) (living w))
    unfolding serve_all
    upload-Leaves = elim (Bool-cases (str_eq t.path [] || str_eq t.tmpfile [])) [
      | inl bad ↦ rw bad (refl, refl)
      | inr fine ↦ rw fine alone-Leaves
    ]

    download-Leaves : Leaves w (serve_all sql (requests_for download o w t) (living w))
    unfolding serve_all
    download-Leaves = elim (Bool-cases (str_eq t.path [])) [
      | inl bad ↦ rw bad (refl, refl)
      | inr fine ↦ rw fine alone-Leaves
    ]

    dispatch-Leaves :
        (command : CommandType)
        → Leaves
            (dispatch sql cmp command o w t)
            (serve_all sql (requests_for command o w t) (living w))
    unfolding serve_all serve_request
    dispatch-Leaves signup = (sym (handle_signup-store sql cmp o w t), refl)
    dispatch-Leaves login =
        (login-Leaves.0 ∙ sym (handle_login-store sql cmp o w t), login-Leaves.1)
    dispatch-Leaves upload =
        (upload-Leaves.0 ∙ sym (handle_upload-store sql cmp o w t), upload-Leaves.1)
    dispatch-Leaves download =
        (download-Leaves.0 ∙ sym (handle_download-store sql cmp o w t), download-Leaves.1)
    dispatch-Leaves delete =
        (alone-Leaves.0 ∙ sym (handle_delete-store sql cmp o w t), alone-Leaves.1)
    dispatch-Leaves list = (alone-Leaves.0 ∙ sym (handle_list-store sql cmp o w t), alone-Leaves.1)
    dispatch-Leaves unknown = (refl, refl)
    dispatch-Leaves quit = (refl, refl)

  module _ (around : Task → Outside) where
    -- The calls on the user store that a worker makes for its tasks.
    unfoldable pub tasks_calls : List Task → World sql cmp → List Call
    unfolding task_requests handle_task calls_of
    tasks_calls [] w = []
    tasks_calls (t ∷ tasks) w =
        calls_of sql (task_requests (around t) w t) (living w)
        ++ tasks_calls tasks (handle_task sql cmp (around t) w t)

    run-tasks :
        (tasks : List Task) (w : World sql cmp) (rest : List Call)
        → run (tasks_calls tasks w ++ rest) (owned sql w.user_store 0)
          ≡ run rest (owned sql (handle_all sql cmp around tasks w).user_store 0)
    unfolding tasks_calls handle_all task_requests handle_task
    run-tasks [] w rest = refl
    run-tasks (t ∷ tasks) w rest =
        let requests = task_requests (around t) w t in
        let next = handle_task sql cmp (around t) w t in
        let done = serve_all sql requests (living w) in
        let (store, none_out) = dispatch-Leaves (around t) w t t.type in
        ap (λ calls. run calls (owned sql w.user_store 0))
          (append_assoc (calls_of sql requests (living w)) (tasks_calls tasks next) rest)
        ∙ run-all sql requests (living w) (tasks_calls tasks next ++ rest)
        ∙ ap (λ s. run (tasks_calls tasks next ++ rest) (owned sql s done.copies)) store
        ∙ ap (λ k. run (tasks_calls tasks next ++ rest) (owned sql next.user_store k)) none_out
        ∙ run-tasks tasks next rest

    -- Whatever tasks a worker carries out, and however they end: over the life of the user store, from
    -- its creation to its destruction behind the last task, no call meets its object in the wrong
    -- state, and all that was taken is given back at the end.
    pub handle_all-GivenBack :
        (allocated made pragma use_persistent_storage : Bool) (d disk : Disk) (file : Bytes)
        (root : Option Bytes) (tasks : List Task) (w : World sql cmp)
        → user_store_create sql allocated made d use_persistent_storage file root
          ≡ (disk, some w.user_store)
        → run
            (create_calls sql allocated pragma use_persistent_storage file root
              ++ (tasks_calls tasks w
                  ++ destroy_calls sql (some (handle_all sql cmp around tasks w).user_store)))
            nothing_held
          ≡ some nothing_held
    handle_all-GivenBack allocated made pragma p d disk file root tasks w created =
        run-created sql allocated made pragma p d disk file root w.user_store _ created
        ∙ run-tasks tasks w _
        ∙ run-destroy sql (handle_all sql cmp around tasks w).user_store 0
