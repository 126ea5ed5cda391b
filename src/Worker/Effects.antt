-- ===== src/Worker/Effects.antt =====
-- What the tasks of src/worker.c do to the files and the sockets, given that a locked user has the
-- priority LOW.
use os_lab.Prelude.{
  ◌<◌, ◌≡◌, refl, Bool, true, false, ◌||◌, [], Option, none, some, Result, ok, err, Bytes, codes, ℤ,
  arith, inl, inr, Bool-cases, str_eq,
}
use os_lab.Priority.{TaskPriority, low}
use os_lab.Disk.{Disk}
use os_lab.Task.{Task}
use os_lab.Fs.{fs_download_path}
use os_lab.Sql.{Sql}
use os_lab.Users.{User, user_store_login}
use os_lab.Users.Accounts.{account}
use os_lab.Users.Login.{CanLogin, password_in, login_iff, lock_user_copy}
use os_lab.Responses.{Response, resp_err, send_response}
use os_lab.Worker.{
  Outside, World, max_upload, reply, locked, upload_for, download_for, after_download, login_for,
  login_result, exceeds, too_large, handle_upload, handle_download,
}

module _ (sql : Sql) (cmp : Response → Response → ℤ) where
  pub locked-low :
      (o : Outside) (w : World sql cmp) (t : Task) (u : User)
      → locked sql cmp o w t ≡ some u
      → u.priority ≡ low
  locked-low o w t u h = (lock_user_copy sql w.user_store t.username o.allocates_user u h).0

  -- A task leaves all of the world but the response queues as it was, and sends an error.
  pub record Refused (o : Outside) (w after : World sql cmp) (t : Task) : Type 0 where
    pub same_disk : after.disk ≡ w.disk
    pub same_users : after.user_store ≡ w.user_store
    pub message : Bytes
    pub told :
        after.resp_queues
        ≡ send_response cmp o.allocates_response o.grows w.resp_queues t.client.client_id resp_err
            (some message)

  refuse :
      (o : Outside) (w : World sql cmp) (t : Task) (m : Bytes)
      → Refused o w (reply sql cmp o w t resp_err m) t
  unfolding reply
  refuse o w t m = record { same_disk = refl; same_users = refl; message = m; told = refl }

  upload_for-large :
      (found : Option User) (o : Outside) (w : World sql cmp) (t : Task)
      → locked sql cmp o w t ≡ found
      → max_upload < t.size
      → (m : Bytes) × (upload_for sql cmp found o w t ≡ (w, err m))
  upload_for-large none o w t is large = (codes "User not found or not logged in", refl)
  upload_for-large (some u) o w t is large =
      let low_user = locked-low o w t u is in
      let over : exceeds sql cmp u t ≡ true = rw low_user (ground arith) in
      (too_large sql cmp o t, rw over refl)

  -- An upload of more than 10 MiB is refused for every user, whatever the priority that the account
  -- was signed up with: no file and no account changes, and the client is told an error.
  pub large_upload-Refused :
      (o : Outside) (w : World sql cmp) (t : Task)
      → max_upload < t.size
      → Refused o w (handle_upload sql cmp o w t) t
  unfolding handle_upload
  large_upload-Refused o w t large =
      let (m, is) = upload_for-large (locked sql cmp o w t) o w t refl large in
      elim (Bool-cases (str_eq t.path [] || str_eq t.tmpfile [])) [
        | inl bad ↦ rw bad (refuse o w t (codes "Invalid file path or temporary file"))
        | inr fine ↦ rw (fine, is) (refuse o w t m)
      ]

  after_download-wire :
      (p : TaskPriority) (o : Outside) (w : World sql cmp) (t : Task) (r : Disk × Result Bytes)
      → p ≡ low
      → (after_download sql cmp p o w t r).wire ≡ w.wire
  unfolding reply
  after_download-wire p o w t (disk, err m) is = refl
  after_download-wire p o w t (disk, ok path) is = rw is refl

  download_for-wire :
      (found : Option User) (o : Outside) (w : World sql cmp) (t : Task)
      → locked sql cmp o w t ≡ found
      → (download_for sql cmp found o w t).wire ≡ w.wire
  unfolding reply
  download_for-wire none o w t is = refl
  download_for-wire (some u) o w t is =
      after_download-wire u.priority o w t
        (fs_download_path o.calls w.disk (some w.user_store.storage_root) (some t.username)
          (some t.path) 511 255)
        (locked-low o w t u is)

  -- A download never writes to a socket: no file is sent to a client, whoever the user is and on
  -- every branch.
  pub handle_download-wire :
      (o : Outside) (w : World sql cmp) (t : Task) → (handle_download sql cmp o w t).wire ≡ w.wire
  unfolding handle_download reply
  handle_download-wire o w t = elim (Bool-cases (str_eq t.path [])) [
    | inl bad ↦ rw bad refl
    | inr fine ↦ rw fine (download_for-wire (locked sql cmp o w t) o w t refl)
  ]

  login_for-ok :
      (found : Option User) (done : Bool) (m : Bytes)
      → login_for sql cmp found done ≡ ok m
      → done ≡ true
  login_for-ok none done m h = ground arith
  login_for-ok (some u) true m h = refl
  login_for-ok (some u) false m h = ground arith

  -- A login task that is answered with success gave the password of the account. A database must be
  -- able to prepare the statement of the login.
  pub login-password :
      (o : Outside) (w : World sql cmp) (t : Task) (m : Bytes)
      → CanLogin sql w.user_store.storage
      → login_result sql cmp o w t ≡ ok m
      → password_in (account sql w.user_store t.username) ≡ some t.password
  login-password o w t m can h = (login_iff sql w.user_store t.username t.password can).0 (
      login_for-ok (locked sql cmp o w t)
        (user_store_login sql w.user_store (some t.username) (some t.password)) m h)
