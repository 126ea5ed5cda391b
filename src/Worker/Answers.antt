-- ===== src/Worker/Answers.antt =====
-- The responses of the workers of src/worker.c.
use os_lab.Prelude.{
  ℕ, ◌*◌, ◌^◌, ◌≡◌, refl, Bool, true, false, [], Option, none, some, Result, ok, err, Bytes, ℤ, inl,
  inr, Bool-cases, str_eq, codes, ◌||◌,
}
use os_lab.Task.{Task, CommandType, unknown, upload, download, delete, list, signup, login, quit}
use os_lab.Fs.{fs_download_path, fs_delete, fs_upload}
use os_lab.Disk.{Disk}
use os_lab.Priority.{TaskPriority}
use os_lab.Sql.{Sql}
use os_lab.Users.{User, UserStore, user_store_signup}
use os_lab.Responses.{Response, ResponseStatus, resp_ok, resp_err, send_response}
use os_lab.Worker.{
  Outside, World, reply, reply_result, locked, upload_for, download_for, delete_for, after_upload,
  after_delete, after_download, can_send, exceeds, tmpfile_opens, is_high, or_else, signup_for,
  after_signup, login_result, list_for, dispatch, handle_task, handle_signup, handle_login,
  handle_upload, handle_download, handle_delete, handle_list, send_file_data,
}

module _ (sql : Sql) (cmp : Response → Response → ℤ) where
  -- One response was sent to the task's client, and nothing else was done to the response queues.
  pub data Answered (o : Outside) (w after : World sql cmp) (t : Task) : Type 0 where
    answers :
        (st : ResponseStatus) (message : Bytes)
        → after.resp_queues
          ≡ send_response cmp o.allocates_response o.grows w.resp_queues t.client.client_id st
              (some message)
        → Answered o w after t

  result_Answered :
      (o : Outside) (w next : World sql cmp) (t : Task) (r : Result Bytes)
      → next.resp_queues ≡ w.resp_queues
      → Answered o w (reply_result sql cmp o next t r) t
  unfolding reply
  result_Answered o w next t (ok m) same = answers resp_ok m (rw same refl)
  result_Answered o w next t (err m) same = answers resp_err m (rw same refl)

  replied :
      (o : Outside) (w next : World sql cmp) (t : Task) (st : ResponseStatus) (m : Bytes)
      → next.resp_queues ≡ w.resp_queues
      → Answered o w (reply sql cmp o next t st m) t
  unfolding reply
  replied o w next t st m same = answers st m (rw same refl)

  send_file_data-queues :
      (o : Outside) (w : World sql cmp) (fd : ℕ) (path name : Bytes)
      → (send_file_data sql cmp o w fd path name).resp_queues ≡ w.resp_queues
  unfolding send_file_data
  send_file_data-queues o w fd path name = elim (Bool-cases (can_send sql cmp o w path)) [
    | inl good ↦ rw good refl
    | inr bad ↦ rw bad refl
  ]

  after_upload-queues :
      (o : Outside) (w : World sql cmp) (t : Task) (r : Disk × Result Bytes)
      → (after_upload sql cmp o w t r).0.resp_queues ≡ w.resp_queues
  after_upload-queues o w t (disk, ok x) = refl
  after_upload-queues o w t (disk, err m) = refl

  upload_for-queues :
      (u : Option User) (o : Outside) (w : World sql cmp) (t : Task)
      → (upload_for sql cmp u o w t).0.resp_queues ≡ w.resp_queues
  upload_for-queues none o w t = refl
  upload_for-queues (some u) o w t = elim (Bool-cases (exceeds sql cmp u t)) [
    | inl large ↦ rw large refl
    | inr fine ↦ elim (Bool-cases (tmpfile_opens sql cmp o w t)) [
      | inr missing ↦ rw (fine, missing) refl
      | inl there ↦
          rw (fine, there)
            (after_upload-queues o w t (
              fs_upload o.calls w.disk (some w.user_store.storage_root) (some t.username)
                (some t.path) (some t.tmpfile) 255))
    ]
  ]

  delete_for-queues :
      (u : Option User) (o : Outside) (w : World sql cmp) (t : Task)
      → (delete_for sql cmp u o w t).0.resp_queues ≡ w.resp_queues
  delete_for-queues none o w t = refl
  delete_for-queues (some u) o w t =
      after_delete-queues w
        (fs_delete o.calls w.disk w.user_store.storage_root t.username t.path 256)
    where
      after_delete-queues :
          (w : World sql cmp) (r : Disk × Result Bytes)
          → (after_delete sql cmp w r).0.resp_queues ≡ w.resp_queues
      after_delete-queues w (disk, ok x) = refl
      after_delete-queues w (disk, err m) = refl

  after_download-Answered :
      (p : TaskPriority) (o : Outside) (w : World sql cmp) (t : Task) (r : Disk × Result Bytes)
      → Answered o w (after_download sql cmp p o w t r) t
  unfolding reply
  after_download-Answered p o w t (disk, err m) =
      replied o w (record w { disk = disk }) t resp_err (or_else m (codes "Download failed")) refl
  after_download-Answered p o w t (disk, ok path) =
      let fetched : World sql cmp = record w { disk = disk } in
      let now =
        send_file_data-queues o (reply sql cmp o fetched t resp_ok (codes "downloaded"))
          t.client.socket_fd path t.path in
      elim (Bool-cases (is_high p)) [
        | inl urgent ↦ rw urgent (answers resp_ok (codes "downloaded") now)
        | inr usual ↦ rw usual (replied o w fetched t resp_ok path refl)
      ]

  download_for-Answered :
      (u : Option User) (o : Outside) (w : World sql cmp) (t : Task)
      → Answered o w (download_for sql cmp u o w t) t
  download_for-Answered none o w t =
      replied o w w t resp_err (codes "User not found or not logged in") refl
  download_for-Answered (some u) o w t = after_download-Answered u.priority o w t (
      fs_download_path o.calls w.disk (some w.user_store.storage_root) (some t.username)
        (some t.path) 511 255)

  signup_for-queues :
      (w : World sql cmp) (r : UserStore sql × Disk × Bool)
      → (after_signup sql cmp w r).0.resp_queues ≡ w.resp_queues
  signup_for-queues w (store, disk, true) = refl
  signup_for-queues w (store, disk, false) = refl

  handle_upload-Answered :
      (o : Outside) (w : World sql cmp) (t : Task) → Answered o w (handle_upload sql cmp o w t) t
  unfolding handle_upload
  handle_upload-Answered o w t =
      let (next, result) = upload_for sql cmp (locked sql cmp o w t) o w t in
      elim (Bool-cases (str_eq t.path [] || str_eq t.tmpfile [])) [
        | inl bad ↦
            rw bad (replied o w w t resp_err (codes "Invalid file path or temporary file") refl)
        | inr fine ↦
            rw fine
              (result_Answered o w next t result (upload_for-queues (locked sql cmp o w t) o w t))
      ]

  handle_download-Answered :
      (o : Outside) (w : World sql cmp) (t : Task) → Answered o w (handle_download sql cmp o w t) t
  unfolding handle_download
  handle_download-Answered o w t = elim (Bool-cases (str_eq t.path [])) [
    | inl bad ↦ rw bad (replied o w w t resp_err (codes "Invalid file path") refl)
    | inr fine ↦ rw fine (download_for-Answered (locked sql cmp o w t) o w t)
  ]

  handle_delete-Answered :
      (o : Outside) (w : World sql cmp) (t : Task) → Answered o w (handle_delete sql cmp o w t) t
  unfolding handle_delete
  handle_delete-Answered o w t =
      let (next, result) = delete_for sql cmp (locked sql cmp o w t) o w t in
      result_Answered o w next t result (delete_for-queues (locked sql cmp o w t) o w t)

  -- What a task of a type leaves behind.
  abbrev pub Handled : CommandType → Outside → World sql cmp → World sql cmp → Task → Type 0
  Handled unknown o w after t = after ≡ w
  Handled quit o w after t = after ≡ w
  Handled upload o w after t = Answered o w after t
  Handled download o w after t = Answered o w after t
  Handled delete o w after t = Answered o w after t
  Handled list o w after t = Answered o w after t
  Handled signup o w after t = Answered o w after t
  Handled login o w after t = Answered o w after t

  dispatch-Handled :
      (type : CommandType) (o : Outside) (w : World sql cmp) (t : Task)
      → Handled type o w (dispatch sql cmp type o w t) t
  unfolding handle_signup handle_login handle_list
  dispatch-Handled unknown o w t = refl
  dispatch-Handled quit o w t = refl
  dispatch-Handled upload o w t = handle_upload-Answered o w t
  dispatch-Handled download o w t = handle_download-Answered o w t
  dispatch-Handled delete o w t = handle_delete-Answered o w t
  dispatch-Handled signup o w t =
      let (next, result) = signup_for sql cmp o w t in
      result_Answered o w next t result (
        signup_for-queues w (
          user_store_signup sql o.allocates_account o.calls.mkdir_made w.user_store w.disk
            (some t.username) (some t.password) (100 * 2 ^ 20) t.priority))
  dispatch-Handled login o w t = result_Answered o w w t (login_result sql cmp o w t) refl
  dispatch-Handled list o w t =
      result_Answered o w w t (list_for sql cmp (locked sql cmp o w t) o) refl

  -- On every branch, a worker ends a task of one of the six commands with exactly one call of
  -- send_response, to the task's client, and does nothing else to the response queues; a task of any
  -- other type changes nothing.
  pub handle_task-Handled :
      (o : Outside) (w : World sql cmp) (t : Task)
      → Handled t.type o w (handle_task sql cmp o w t) t
  unfolding handle_task
  handle_task-Handled o w t = dispatch-Handled t.type o w t
