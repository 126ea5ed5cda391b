-- ===== src/Worker/Owners.antt =====
-- Which files a task of src/worker.c can change.
use os_lab.Prelude.{
  ◌≡◌, ◌≢◌, refl, ap, ◌∙◌, Bool, true, false, ◌||◌, [], Option, none, some, Result, ok, err, Bytes,
  ℤ, codes, inl, inr, Bool-cases, str_eq, if◌then◌else◌,
}
use os_lab.Priority.{TaskPriority, low}
use os_lab.Disk.{Disk, read, remove, read-remove}
use os_lab.Task.{Task, CommandType, unknown, upload, download, delete, list, signup, login, quit}
use os_lab.Fs.{build_user_path, temp_path}
use os_lab.Fs.Copy.{Kept}
use os_lab.Fs.Others.{fs_upload-Kept, fs_download_path-Kept, fs_delete-Kept}
use os_lab.Fs.Names.{IsPlain, FitsPath, build_user_path-apart, temp_path-apart}
use os_lab.Sql.{Sql}
use os_lab.Users.{User, UserStore}
use os_lab.Users.Dirs.{user_store_signup-read}
use os_lab.Responses.{Response, ResponseStatus, resp_ok, resp_err}
use os_lab.Worker.Effects.{locked-low}
use os_lab.Worker.{
  or_else, Outside, World, reply, reply_result, locked, after_signup, signup_for, handle_signup,
  login_result, handle_login, upload_for, after_upload, store_upload, tmpfile_opens, exceeds,
  handle_upload, after_download, download_for, handle_download, after_delete, delete_for,
  handle_delete, list_for, handle_list, dispatch, handle_task,
}

module _ (sql : Sql) (cmp : Response → Response → ℤ) where
  pub reply-disk :
      (o : Outside) (w : World sql cmp) (t : Task) (st : ResponseStatus) (m : Bytes)
      → (reply sql cmp o w t st m).disk ≡ w.disk
  unfolding reply
  reply-disk o w t st m = refl

  reply_result-disk :
      (o : Outside) (w : World sql cmp) (t : Task) (r : Result Bytes)
      → (reply_result sql cmp o w t r).disk ≡ w.disk
  reply_result-disk o w t (ok m) = reply-disk o w t resp_ok m
  reply_result-disk o w t (err m) = reply-disk o w t resp_err m

  module _ (o : Outside) (w : World sql cmp) (t : Task) (q : Bytes) where
    -- Where the task's file is stored.
    abbrev stored_at : Bytes
    stored_at = build_user_path w.user_store.storage_root t.username (some t.path) 512

    abbrev Same : World sql cmp → Type 0
    Same v = read v.disk q ≡ read w.disk q

    reply_result-Same :
        (v : World sql cmp) (r : Result Bytes) → Same v → Same (reply_result sql cmp o v t r)
    reply_result-Same v r h = ap (λ d. read d q) (reply_result-disk o v t r) ∙ h

    reply-Same :
        (v : World sql cmp) (st : ResponseStatus) (m : Bytes)
        → Same v
        → Same (reply sql cmp o v t st m)
    reply-Same v st m h = ap (λ d. read d q) (reply-disk o v t st m) ∙ h

    after_signup-Same :
        (r : UserStore sql × Disk × Bool)
        → read r.1 q ≡ read w.disk q
        → Same (after_signup sql cmp w r).0
    after_signup-Same (store, d, true) h = h
    after_signup-Same (store, d, false) h = h

    handle_signup-Same : Same (handle_signup sql cmp o w t)
    unfolding handle_signup
    handle_signup-Same =
        let next = signup_for sql cmp o w t in
        reply_result-Same next.0 next.1 (
          after_signup-Same _
            (user_store_signup-read sql _ _ w.user_store w.disk _ _ _ t.priority q))

    handle_login-Same : Same (handle_login sql cmp o w t)
    unfolding handle_login
    handle_login-Same = reply_result-Same w (login_result sql cmp o w t) refl

    handle_list-Same : Same (handle_list sql cmp o w t)
    unfolding handle_list
    handle_list-Same = reply_result-Same w (list_for sql cmp (locked sql cmp o w t) o) refl

    module _ (not_stored : str_eq stored_at q ≡ false) where
      after_delete-Same :
          (r : Disk × Result Bytes) → Kept stored_at w.disk r.0 → Same (after_delete sql cmp w r).0
      after_delete-Same (d, ok m) k = k q not_stored
      after_delete-Same (d, err m) k = k q not_stored

      delete_for-Same : (found : Option User) → Same (delete_for sql cmp found o w t).0
      delete_for-Same none = refl
      delete_for-Same (some u) =
          after_delete-Same _
            (fs_delete-Kept o.calls w.disk w.user_store.storage_root t.username t.path 256)

      handle_delete-Same : Same (handle_delete sql cmp o w t)
      unfolding handle_delete
      handle_delete-Same =
          let next = delete_for sql cmp (locked sql cmp o w t) o w t in
          reply_result-Same next.0 next.1 (delete_for-Same (locked sql cmp o w t))

      module _ (not_tmpfile : str_eq t.tmpfile q ≡ false) where
        unlinked :
            (unlinks : Bool) (d : Disk)
            → read (if unlinks then remove d t.tmpfile else d) q ≡ read d q
        unlinked true d = rw (read-remove d t.tmpfile q, not_tmpfile)
        unlinked false d = refl

        after_upload-Same :
            (r : Disk × Result Bytes)
            → Kept stored_at w.disk r.0
            → Same (after_upload sql cmp o w t r).0
        after_upload-Same (d, ok m) k = unlinked o.unlinks d ∙ k q not_stored
        after_upload-Same (d, err m) k = k q not_stored

        store_upload-Same : Same (store_upload sql cmp o w t).0
        store_upload-Same = elim (Bool-cases (tmpfile_opens sql cmp o w t)) [
          | inl opens ↦ rw opens (
              after_upload-Same _ (
                fs_upload-Kept o.calls w.disk w.user_store.storage_root t.username t.path t.tmpfile
                  255))
          | inr fails ↦ rw fails refl
        ]

        upload_for-Same : (found : Option User) → Same (upload_for sql cmp found o w t).0
        upload_for-Same none = refl
        upload_for-Same (some u) = elim (Bool-cases (exceeds sql cmp u t)) [
          | inl over ↦ rw over refl
          | inr within ↦ rw within store_upload-Same
        ]

        handle_upload-Same : Same (handle_upload sql cmp o w t)
        unfolding handle_upload
        handle_upload-Same =
            let next = upload_for sql cmp (locked sql cmp o w t) o w t in
            elim (Bool-cases (str_eq t.path [] || str_eq t.tmpfile [])) [
              | inl bad ↦
                  rw bad (reply-Same w resp_err (codes "Invalid file path or temporary file") refl)
              | inr fine ↦
                  rw fine (reply_result-Same next.0 next.1 (upload_for-Same (locked sql cmp o w t)))
            ]

    module _ (not_temp : str_eq (temp_path t.username t.path o.calls.now) q ≡ false) where
      after_download-Same :
          (p : TaskPriority) (r : Disk × Result Bytes)
          → p ≡ low
          → Kept (temp_path t.username t.path o.calls.now) w.disk r.0
          → Same (after_download sql cmp p o w t r)
      after_download-Same p (d, err m) is k =
          reply-Same (record w { disk = d }) resp_err (or_else m (codes "Download failed"))
            (k q not_temp)
      after_download-Same p (d, ok path) is k =
          rw is (reply-Same (record w { disk = d }) resp_ok path (k q not_temp))

      download_for-Same :
          (found : Option User)
          → locked sql cmp o w t ≡ found
          → Same (download_for sql cmp found o w t)
      download_for-Same none is =
          reply-Same w resp_err (codes "User not found or not logged in") refl
      download_for-Same (some u) is =
          after_download-Same u.priority _ (locked-low sql cmp o w t u is) (
            fs_download_path-Kept o.calls w.disk w.user_store.storage_root t.username t.path 511
              255)

      handle_download-Same : Same (handle_download sql cmp o w t)
      unfolding handle_download
      handle_download-Same = elim (Bool-cases (str_eq t.path [])) [
        | inl bad ↦ rw bad (reply-Same w resp_err (codes "Invalid file path") refl)
        | inr fine ↦ rw fine (download_for-Same (locked sql cmp o w t) refl)
      ]

    -- A task of any kind changes no file but the one its user and file name are stored at, its
    -- temporary file, and the decoded copy that a download makes.
    pub dispatch-Same :
        (command : CommandType)
        → str_eq stored_at q ≡ false
        → str_eq t.tmpfile q ≡ false
        → str_eq (temp_path t.username t.path o.calls.now) q ≡ false
        → Same (dispatch sql cmp command o w t)
    dispatch-Same signup a b c = handle_signup-Same
    dispatch-Same login a b c = handle_login-Same
    dispatch-Same upload a b c = handle_upload-Same a b
    dispatch-Same download a b c = handle_download-Same c
    dispatch-Same delete a b c = handle_delete-Same a
    dispatch-Same list a b c = handle_list-Same
    dispatch-Same unknown a b c = refl
    dispatch-Same quit a b c = refl

  -- A task of a user never changes the stored file of another one, whatever the command, its outcome
  -- and the failures of calls, if the two names differ and have no slash, no path is cut at 511
  -- bytes, and the temporary file that the task names is not that file itself. Paths are compared
  -- as texts.
  pub handle_task-others :
      (o : Outside) (w : World sql cmp) (t : Task) (user rel : Bytes)
      → t.username ≢ user
      → IsPlain t.username
      → IsPlain user
      → FitsPath w.user_store.storage_root t.username t.path
      → FitsPath w.user_store.storage_root user rel
      → str_eq t.tmpfile (build_user_path w.user_store.storage_root user (some rel) 512) ≡ false
      → read
          (handle_task sql cmp o w t).disk
          (build_user_path w.user_store.storage_root user (some rel) 512)
        ≡ read w.disk (build_user_path w.user_store.storage_root user (some rel) 512)
  unfolding handle_task
  handle_task-others o w t user rel other plain plain' fits fits' not_tmpfile =
      dispatch-Same o w t (build_user_path w.user_store.storage_root user (some rel) 512) t.type
        (build_user_path-apart w.user_store.storage_root t.username user t.path rel other plain
          plain' fits fits')
        not_tmpfile
        (temp_path-apart w.user_store.storage_root t.username user t.path rel o.calls.now fits')
