-- ===== src/Worker/Moves.antt =====
-- Where the bytes of an upload's temporary file are behind the upload of src/worker.c.
use os_lab.Prelude.{
  ◌≤◌, ◌≡◌, ap, ◌∙◌, Bool, true, false, not, ◌&&◌, [], none, some, Result, ok, Bytes, codes, ℕ, ℤ,
  str_eq, str_eq_iff, str_eq_self, ltb, arith, if◌then◌else◌,
}
use os_lab.Priority.{TaskPriority}
use os_lab.Disk.{Disk, read, contents-read, remove, read-remove}
use os_lab.Task.{Task}
use os_lab.Fs.{build_user_path, fs_upload}
use os_lab.Fs.Upload.{encoded, fs_upload_lem, Works, fs_upload_succeeds}
use os_lab.Sql.{Sql}
use os_lab.Users.{User}
use os_lab.Responses.{Response, resp_ok}
use os_lab.Worker.{
  Outside, World, max_upload, reply, locked, tmpfile_opens, exceeds, is_high, handle_upload,
}
use os_lab.Worker.Owners.{reply-disk}
use os_lab.Worker.Success.{upload_for-stored, handle_upload-stored}

pub ending : (r : Disk × Result Bytes) {o : Result Bytes} → r.1 ≡ o → r ≡ (r.0, o)
ending r h = λ i. (r.0, h i)

kept_apart :
    (unlinks : Bool) (d : Disk) (tmp path b : Bytes)
    → str_eq path tmp ≡ false
    → read d path ≡ some b
    → read (if unlinks then remove d tmp else d) path ≡ some b
kept_apart false d tmp path b apart held = held
kept_apart true d tmp path b apart held =
    let other : str_eq tmp path ≡ false =
      ground (arith, str_eq_iff tmp path, str_eq_iff path tmp) in
    rw (read-remove d tmp path, other) held

module _ (sql : Sql) (cmp : Response → Response → ℤ) where
  -- An upload of a file that holds `b`, at a path other than the target, whose calls all succeed
  -- but perhaps `unlink`.
  pub record Uploadable (o : Outside) (w : World sql cmp) (t : Task) (b : Bytes) : Type 0 where
    pub u : User
    pub account : locked sql cmp o w t ≡ some u
    pub path_given : str_eq t.path [] ≡ false
    pub tmpfile_given : str_eq t.tmpfile [] ≡ false
    pub small : t.size ≤ max_upload
    pub held : read w.disk t.tmpfile ≡ some b
    pub opens : o.opens_tmpfile ≡ true
    pub works : Works o.calls
    pub apart :
        str_eq (build_user_path w.user_store.storage_root t.username (some t.path) 512) t.tmpfile
        ≡ false

  module _ (o : Outside) (w : World sql cmp) (t : Task) (b : Bytes) (x : Uploadable o w t b) where
    abbrev pub stored_at : Bytes
    stored_at = build_user_path w.user_store.storage_root t.username (some t.path) 512

    abbrev pub up : Disk × Result Bytes
    up =
        fs_upload o.calls w.disk (some w.user_store.storage_root) (some t.username) (some t.path)
          (some t.tmpfile) 255

    abbrev pub after : World sql cmp
    after = record w { disk = if o.unlinks then remove up.0 t.tmpfile else up.0 }

    up_ok : up ≡ (up.0, ok [])
    up_ok = ending up (
        fs_upload_succeeds o.calls w.disk w.user_store.storage_root t.username t.path t.tmpfile b
          255 x.works x.held x.apart)

    pub uploaded : handle_upload sql cmp o w t ≡ reply sql cmp o after t resp_ok (codes "uploaded")
    uploaded =
        let small : exceeds sql cmp x.u t ≡ false = within t.size x.u.priority x.small in
        let opens : tmpfile_opens sql cmp o w t ≡ true = rw (x.held, tmpfile_opens) x.opens in
        handle_upload-stored sql cmp o w after t (codes "uploaded") x.path_given x.tmpfile_given (
          upload_for-stored sql cmp (locked sql cmp o w t) x.u o w t up.0 x.account small opens
            up_ok)
      where
        within :
            (size : ℕ) (p : TaskPriority)
            → size ≤ max_upload
            → (ltb max_upload size && not (is_high p)) ≡ false
        within size p h = ground arith

    gone :
        (unlinks : Bool) (d : Disk)
        → unlinks ≡ true
        → read (if unlinks then remove d t.tmpfile else d) t.tmpfile ≡ none
    gone unlinks d is = rw is (rw (read-remove d t.tmpfile t.tmpfile, str_eq_self t.tmpfile))

    pub stored : read after.disk stored_at ≡ some (encoded b)
    stored =
        let (there, _) = rw up_ok at (
          fs_upload_lem o.calls w.disk w.user_store.storage_root t.username t.path t.tmpfile 255
            x.apart) in
        kept_apart o.unlinks up.0 t.tmpfile stored_at (encoded b) x.apart
          (there ∙ ap (λ c. some (encoded c)) (contents-read w.disk t.tmpfile b x.held))

    -- An upload of a user with an account, with a size of at most 10 MiB in the command and all calls
    -- successful, `unlink` among them, moves the file that the task names, whoever it belongs to, into
    -- the user's directory, if that file exists and is not the target itself: the target then holds
    -- the encoded bytes, and the file that the task named is gone.
    pub handle_upload-moves :
        o.unlinks ≡ true
        → (read (handle_upload sql cmp o w t).disk stored_at ≡ some (encoded b))
          × (read (handle_upload sql cmp o w t).disk t.tmpfile ≡ none)
    handle_upload-moves unlinked =
        let same = ap (λ v. v.disk) uploaded ∙ reply-disk sql cmp o after t resp_ok _ in
        (
          ap (λ d. read d stored_at) same ∙ stored,
          ap (λ d. read d t.tmpfile) same ∙ gone o.unlinks up.0 unlinked,
        )
