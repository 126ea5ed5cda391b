-- ===== src/Worker.antt =====
-- src/worker.c: what a worker thread does with a task that it has taken from the queue. A task is
-- carried out as one step, which ends with the response.
pub mod Answers
pub mod Effects
pub mod Loop
pub mod Success
pub mod Files
pub mod Owners
pub mod Moves
pub mod Stores
pub mod Requests
pub mod Tests
use os_lab.Prelude.{
  ℕ, suc, ◌+◌, ◌-◌, ◌*◌, ◌^◌, Bool, true, false, not, ◌&&◌, ◌||◌, List, [], ◌∷◌, ◌++◌, Option, none,
  some, Result, ok, err, Bytes, codes, snprintf, decimal, length, ℤ, ltb, ◌==◌, str_eq,
  if◌then◌else◌,
}
use os_lab.Priority.{TaskPriority, high, to_ℕ}
use os_lab.Disk.{Disk, read, contents, remove}
use os_lab.Task.{Task, CommandType, unknown, upload, download, delete, list, signup, login, quit}
use os_lab.Queue.{Queue}
use os_lab.Fs.{Calls, fs_upload, fs_download_path, fs_delete, fs_list}
use os_lab.Sql.{Sql}
use os_lab.Users.{User, UserStore, user_store_signup, user_store_login, user_store_lock_user}
use os_lab.Responses.{
  Response, ResponseStatus, resp_ok, resp_err, ResponseQueueEntry, send_response,
}

-- How the calls go that one task makes of the C library, beside those of the file operations.
pub record Outside : Type 0 where
  pub calls : Calls
  -- `calloc` of the user that is locked, of the account that a signup adds, and of the response.
  pub allocates_user : Bool
  pub allocates_account : Bool
  pub allocates_response : Bool
  -- `realloc` of the queue of responses.
  pub grows : Bool
  -- `fopen` of the temporary file of an upload, and `unlink` of a temporary file.
  pub opens_tmpfile : Bool
  pub unlinks : Bool
  -- `fopen` of the file that is sent.
  pub opens_sent : Bool
  -- What `opendir` and `readdir` give for the user's directory.
  pub entries : Option (List Bytes)
  -- The text of a size in megabytes, with two decimals.
  pub megabytes : ℕ → Bytes

-- The text in the buffer `err`, or the other where the buffer is empty.
abbrev pub or_else : Bytes → Bytes → Bytes
or_else [] other = other
or_else (b ∷ text) other = b ∷ text

abbrev is_high : TaskPriority → Bool
is_high p = to_ℕ p == 2

abbrev pub max_upload : ℕ
max_upload = 10 * 1024 * 1024

-- The line in front of the bytes of a file.
abbrev pub file_header : Bytes → ℕ → Bytes
file_header filename file_size =
    codes "FILE_DATA " ++ filename ++ codes " " ++ decimal file_size ++ codes "\n"

module _ (sql : Sql) (cmp : Response → Response → ℤ) where
  -- `wire` lists what was written to the sockets, the last first.
  pub record World : Type 0 where
    pub user_store : UserStore sql
    pub disk : Disk
    pub resp_queues : Queue ResponseQueueEntry
    pub wire : List (ℕ × Bytes)

  unfoldable pub reply : Outside → World → Task → ResponseStatus → Bytes → World
  unfolding send_response
  reply o w t st message = record w {
    resp_queues =
        send_response cmp o.allocates_response o.grows w.resp_queues t.client.client_id st
          (some message);
  }

  -- A reply to a result: the text of success, or the error.
  abbrev pub reply_result : Outside → World → Task → Result Bytes → World
  reply_result o w t (ok message) = reply o w t resp_ok message
  reply_result o w t (err message) = reply o w t resp_err message

  abbrev locked : Outside → World → Task → Option User
  locked o w t = user_store_lock_user sql o.allocates_user w.user_store (some t.username)

  abbrev after_signup : World → UserStore sql × Disk × Bool → World × Result Bytes
  after_signup w (store, disk, true) =
      (record w { user_store = store; disk = disk }, ok (codes "signed_up"))
  after_signup w (store, disk, false) = (
    record w { user_store = store; disk = disk },
    err (codes "Signup failed - user may already exist"),
  )

  abbrev signup_for : Outside → World → Task → World × Result Bytes
  signup_for o w t = after_signup w (
      user_store_signup sql o.allocates_account o.calls.mkdir_made w.user_store w.disk
        (some t.username) (some t.password) (100 * 2 ^ 20) t.priority)

  -- CMD_SIGNUP, with a quota of 100 MiB.
  unfoldable pub handle_signup : Outside → World → Task → World
  unfolding reply user_store_signup
  handle_signup o w t = let (next, result) = signup_for o w t in reply_result o next t result

  abbrev login_for : Option User → Bool → Result Bytes
  login_for none done = err (codes "User not found")
  login_for (some u) true = ok (codes "logged_in")
  login_for (some u) false = err (codes "Invalid username or password")

  abbrev pub login_result : Outside → World → Task → Result Bytes
  login_result o w t =
      login_for (locked o w t)
        (user_store_login sql w.user_store (some t.username) (some t.password))

  -- CMD_LOGIN
  unfoldable pub handle_login : Outside → World → Task → World
  unfolding reply user_store_login user_store_lock_user
  handle_login o w t = reply_result o w t (login_result o w t)

  abbrev tmpfile_opens : Outside → World → Task → Bool
  tmpfile_opens o w t = elim (read w.disk t.tmpfile) [ none ↦ false | some _ ↦ o.opens_tmpfile ]

  abbrev after_upload : Outside → World → Task → Disk × Result Bytes → World × Result Bytes
  after_upload o w t (disk, ok _) =
      (record w { disk = if o.unlinks then remove disk t.tmpfile else disk }, ok (codes "uploaded"))
  after_upload o w t (disk, err message) =
      (record w { disk = disk }, err (or_else message (codes "upload failed")))

  -- The upload itself, once the user is locked and the size is allowed.
  abbrev store_upload : Outside → World → Task → World × Result Bytes
  store_upload o w t =
      let uploaded =
        fs_upload o.calls w.disk (some w.user_store.storage_root) (some t.username) (some t.path)
          (some t.tmpfile) 255 in
      if tmpfile_opens o w t
      then after_upload o w t uploaded
      else (w, err (codes "Temporary file not found or inaccessible"))

  abbrev exceeds : User → Task → Bool
  exceeds u t = ltb max_upload t.size && not (is_high u.priority)

  abbrev too_large : Outside → Task → Bytes
  too_large o t = snprintf 255 (
      codes "File too large ("
      ++ o.megabytes t.size
      ++ codes " MB). Upgrade to high priority for larger uploads.")

  abbrev upload_for : Option User → Outside → World → Task → World × Result Bytes
  upload_for none o w t = (w, err (codes "User not found or not logged in"))
  upload_for (some u) o w t = if exceeds u t then (w, err (too_large o t)) else store_upload o w t

  -- CMD_UPLOAD
  unfoldable pub handle_upload : Outside → World → Task → World
  unfolding reply fs_upload user_store_lock_user
  handle_upload o w t =
      let (next, result) = upload_for (locked o w t) o w t in
      if str_eq t.path [] || str_eq t.tmpfile []
      then reply o w t resp_err (codes "Invalid file path or temporary file")
      else reply_result o next t result

  abbrev can_send : Outside → World → Bytes → Bool
  can_send o w file_path = elim (read w.disk file_path) [ none ↦ false | some _ ↦ o.opens_sent ]

  -- `send_file_data`: the header, and the bytes of the file. All is read and written that is there.
  unfoldable pub send_file_data : Outside → World → ℕ → (file_path filename : Bytes) → World
  unfolding decimal contents
  send_file_data o w socket_fd file_path filename =
      let bytes = contents w.disk file_path in
      let header = snprintf 512 (file_header filename (length bytes)) in
      if can_send o w file_path
      then record w { wire = (socket_fd, bytes) ∷ (socket_fd, header) ∷ w.wire }
      else w

  -- What a user of the priority HIGH gets.
  abbrev send_now : Outside → World → Task → Bytes → World
  send_now o w t p =
      let sent =
        send_file_data o (reply o w t resp_ok (codes "downloaded")) t.client.socket_fd p t.path in
      record sent { disk = if o.unlinks then remove sent.disk p else sent.disk }

  abbrev after_download : TaskPriority → Outside → World → Task → Disk × Result Bytes → World
  after_download priority o w t (disk, err message) =
      reply o (record w { disk = disk }) t resp_err (or_else message (codes "Download failed"))
  after_download priority o w t (disk, ok p) =
      let fetched : World = record w { disk = disk } in
      if is_high priority then send_now o fetched t p else reply o fetched t resp_ok p

  abbrev download_for : Option User → Outside → World → Task → World
  download_for none o w t = reply o w t resp_err (codes "User not found or not logged in")
  download_for (some u) o w t = after_download u.priority o w t (
      fs_download_path o.calls w.disk (some w.user_store.storage_root) (some t.username)
        (some t.path) 511 255)

  -- CMD_DOWNLOAD
  unfoldable pub handle_download : Outside → World → Task → World
  unfolding reply fs_download_path user_store_lock_user send_file_data
  handle_download o w t =
      if str_eq t.path []
      then reply o w t resp_err (codes "Invalid file path")
      else download_for (locked o w t) o w t

  abbrev after_delete : World → Disk × Result Bytes → World × Result Bytes
  after_delete w (disk, ok _) = (record w { disk = disk }, ok (codes "deleted"))
  after_delete w (disk, err message) = (record w { disk = disk }, err message)

  abbrev delete_for : Option User → Outside → World → Task → World × Result Bytes
  delete_for none o w t = (w, err (codes "User not found"))
  delete_for (some u) o w t =
      after_delete w (fs_delete o.calls w.disk w.user_store.storage_root t.username t.path 256)

  -- CMD_DELETE
  unfoldable pub handle_delete : Outside → World → Task → World
  unfolding reply fs_delete user_store_lock_user
  handle_delete o w t =
      let (next, result) = delete_for (locked o w t) o w t in reply_result o next t result

  abbrev list_for : Option User → Outside → Result Bytes
  list_for none o = err (codes "User not found")
  list_for (some u) o = fs_list o.entries 4096 256

  -- CMD_LIST
  unfoldable pub handle_list : Outside → World → Task → World
  unfolding reply fs_list user_store_lock_user
  handle_list o w t = reply_result o w t (list_for (locked o w t) o)

  -- The `switch` of `worker_thread_main`.
  abbrev pub dispatch : CommandType → Outside → World → Task → World
  dispatch signup o w t = handle_signup o w t
  dispatch login o w t = handle_login o w t
  dispatch upload o w t = handle_upload o w t
  dispatch download o w t = handle_download o w t
  dispatch delete o w t = handle_delete o w t
  dispatch list o w t = handle_list o w t
  dispatch unknown o w t = w
  dispatch quit o w t = w

  unfoldable pub handle_task : Outside → World → Task → World
  unfolding handle_signup handle_login handle_upload handle_download handle_delete handle_list
  handle_task o w t = dispatch t.type o w t
