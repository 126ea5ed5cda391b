-- ===== src/Worker/Stores.antt =====
-- src/worker.c: only a signup changes the accounts.
use os_lab.Prelude.{
  ◌≡◌, refl, ap, ◌∙◌, ◌*◌, ◌^◌, ℕ, ◌||◌, Bool, true, false, [], Option, none, some, Result, ok, err,
  Bytes, codes, ℤ, inl, inr, Bool-cases, str_eq,
}
use os_lab.Priority.{TaskPriority}
use os_lab.Disk.{Disk}
use os_lab.Task.{Task, CommandType, signup, login, upload, download, delete, list, unknown, quit}
use os_lab.Fs.{fs_delete}
use os_lab.Sql.{Sql}
use os_lab.Users.{User, UserStore, user_store_signup}
use os_lab.Users.Dirs.{user_store_signup-storage_root}
use os_lab.Responses.{Response, resp_ok}
use os_lab.Worker.{
  Outside, World, reply, reply_result, locked, after_signup, signup_for, handle_signup,
  login_result, handle_login, tmpfile_opens, after_upload, exceeds, upload_for, handle_upload,
  can_send, send_file_data, send_now, is_high, after_download, download_for, handle_download,
  after_delete, delete_for, handle_delete, list_for, handle_list, dispatch, handle_task,
}

module _ (sql : Sql) (cmp : Response → Response → ℤ) where
  pub reply_result-store :
      (o : Outside) (w : World sql cmp) (t : Task) (r : Result Bytes)
      → (reply_result sql cmp o w t r).user_store ≡ w.user_store
  unfolding reply
  reply_result-store o w t (ok message) = refl
  reply_result-store o w t (err message) = refl

  after_signup-store :
      (w : World sql cmp) (r : UserStore sql × Disk × Bool)
      → (after_signup sql cmp w r).0.user_store ≡ r.0
  after_signup-store w (store, d, true) = refl
  after_signup-store w (store, d, false) = refl

  module _ (o : Outside) (w : World sql cmp) (t : Task) where
    abbrev pub SameStore : World sql cmp → Type 0
    SameStore w' = w'.user_store ≡ w.user_store

    pub handle_signup-store :
        (handle_signup sql cmp o w t).user_store
        ≡ (user_store_signup sql o.allocates_account o.calls.mkdir_made w.user_store w.disk
            (some t.username)
            (some t.password)
            (100 * 2 ^ 20)
            t.priority).0
    unfolding handle_signup
    handle_signup-store =
        let next = signup_for sql cmp o w t in
        reply_result-store o next.0 t next.1 ∙ after_signup-store w _

    send_file_data-store :
        (w' : World sql cmp) (fd : ℕ) (p filename : Bytes)
        → (send_file_data sql cmp o w' fd p filename).user_store ≡ w'.user_store
    unfolding send_file_data
    send_file_data-store w' fd p filename = elim (Bool-cases (can_send sql cmp o w' p)) [
      | inl opens ↦ rw opens refl
      | inr fails ↦ rw fails refl
    ]

    send_now-store :
        (w' : World sql cmp) (p : Bytes) → (send_now sql cmp o w' t p).user_store ≡ w'.user_store
    unfolding reply
    send_now-store w' p =
        send_file_data-store (reply sql cmp o w' t resp_ok (codes "downloaded")) t.client.socket_fd
          p t.path

    after_upload-store : (r : Disk × Result Bytes) → SameStore (after_upload sql cmp o w t r).0
    after_upload-store (d, ok m) = refl
    after_upload-store (d, err m) = refl

    after_delete-store : (r : Disk × Result Bytes) → SameStore (after_delete sql cmp w r).0
    after_delete-store (d, ok m) = refl
    after_delete-store (d, err m) = refl

    upload_for-store : (found : Option User) → SameStore (upload_for sql cmp found o w t).0
    upload_for-store none = refl
    upload_for-store (some u) = elim (Bool-cases (exceeds sql cmp u t)) [
      | inl over ↦ rw over refl
      | inr within ↦ rw within (elim (Bool-cases (tmpfile_opens sql cmp o w t)) [
        | inl opens ↦ rw opens (after_upload-store _)
        | inr fails ↦ rw fails refl
      ])
    ]

    pub handle_upload-store : SameStore (handle_upload sql cmp o w t)
    unfolding handle_upload reply
    handle_upload-store =
        let next = upload_for sql cmp (locked sql cmp o w t) o w t in
        elim (Bool-cases (str_eq t.path [] || str_eq t.tmpfile [])) [
          | inl bad ↦ rw bad refl
          | inr fine ↦
              rw fine
                (reply_result-store o next.0 t next.1 ∙ upload_for-store (locked sql cmp o w t))
        ]

    after_download-store :
        (p : TaskPriority) (r : Disk × Result Bytes) → SameStore (after_download sql cmp p o w t r)
    unfolding reply
    after_download-store p (d, err m) = refl
    after_download-store p (d, ok path) = elim (Bool-cases (is_high p)) [
      | inl high ↦ rw high (send_now-store (record w { disk = d }) path)
      | inr other ↦ rw other refl
    ]

    download_for-store : (found : Option User) → SameStore (download_for sql cmp found o w t)
    unfolding reply
    download_for-store none = refl
    download_for-store (some u) = after_download-store u.priority _

    pub handle_download-store : SameStore (handle_download sql cmp o w t)
    unfolding handle_download reply
    handle_download-store = elim (Bool-cases (str_eq t.path [])) [
      | inl bad ↦ rw bad refl
      | inr fine ↦ rw fine (download_for-store (locked sql cmp o w t))
    ]

    delete_for-store : (found : Option User) → SameStore (delete_for sql cmp found o w t).0
    delete_for-store none = refl
    delete_for-store (some u) =
        after_delete-store
          (fs_delete o.calls w.disk w.user_store.storage_root t.username t.path 256)

    pub handle_delete-store : SameStore (handle_delete sql cmp o w t)
    unfolding handle_delete
    handle_delete-store =
        let next = delete_for sql cmp (locked sql cmp o w t) o w t in
        reply_result-store o next.0 t next.1 ∙ delete_for-store (locked sql cmp o w t)

    pub handle_login-store : SameStore (handle_login sql cmp o w t)
    unfolding handle_login
    handle_login-store = reply_result-store o w t (login_result sql cmp o w t)

    pub handle_list-store : SameStore (handle_list sql cmp o w t)
    unfolding handle_list
    handle_list-store = reply_result-store o w t (list_for sql cmp (locked sql cmp o w t) o)

    abbrev SameRoot : World sql cmp → Type 0
    SameRoot w' = w'.user_store.storage_root ≡ w.user_store.storage_root

    root_kept : (w' : World sql cmp) → SameStore w' → SameRoot w'
    root_kept w' same = ap (λ store. store.storage_root) same

    -- A task of any kind keeps the root of the stored files.
    pub dispatch-storage_root : (command : CommandType) → SameRoot (dispatch sql cmp command o w t)
    dispatch-storage_root signup =
        ap (λ store. store.storage_root) handle_signup-store
        ∙ user_store_signup-storage_root sql o.allocates_account o.calls.mkdir_made w.user_store
            w.disk t.username t.password _ t.priority
    dispatch-storage_root login = root_kept (handle_login sql cmp o w t) handle_login-store
    dispatch-storage_root upload = root_kept (handle_upload sql cmp o w t) handle_upload-store
    dispatch-storage_root download = root_kept (handle_download sql cmp o w t) handle_download-store
    dispatch-storage_root delete = root_kept (handle_delete sql cmp o w t) handle_delete-store
    dispatch-storage_root list = root_kept (handle_list sql cmp o w t) handle_list-store
    dispatch-storage_root unknown = refl
    dispatch-storage_root quit = refl

  pub handle_task-storage_root :
      (o : Outside) (w : World sql cmp) (t : Task)
      → (handle_task sql cmp o w t).user_store.storage_root ≡ w.user_store.storage_root
  unfolding handle_task
  handle_task-storage_root o w t = dispatch-storage_root o w t t.type
