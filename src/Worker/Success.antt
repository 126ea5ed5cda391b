-- ===== src/Worker/Success.antt =====
-- The branches of an upload and of a download in src/worker.c on which all goes well.
use os_lab.Prelude.{
  ◌≡◌, refl, ap, ◌∙◌, Bool, true, false, ◌||◌, [], Option, some, ok, Bytes, ℤ, str_eq,
  if◌then◌else◌,
}
use os_lab.Priority.{TaskPriority, low}
use os_lab.Disk.{Disk}
use os_lab.Task.{Task}
use os_lab.Fs.{fs_upload, fs_download_path}
use os_lab.Sql.{Sql}
use os_lab.Users.{User}
use os_lab.Responses.{Response, resp_ok}
use os_lab.Worker.{
  Outside, World, reply, reply_result, locked, upload_for, after_upload, tmpfile_opens, exceeds,
  download_for, after_download, handle_upload, handle_download,
}

module _ (sql : Sql) (cmp : Response → Response → ℤ) where
  pub upload_for-stored :
      (found : Option User) (u : User) (o : Outside) (w : World sql cmp) (t : Task) (d : Disk)
      → found ≡ some u
      → exceeds sql cmp u t ≡ false
      → tmpfile_opens sql cmp o w t ≡ true
      → fs_upload o.calls w.disk
          (some w.user_store.storage_root)
          (some t.username)
          (some t.path)
          (some t.tmpfile)
          255
        ≡ (d, ok [])
      → upload_for sql cmp found o w t ≡ after_upload sql cmp o w t (d, ok [])
  upload_for-stored found u o w t d is small opens up = rw (is, small, opens, up) refl

  pub handle_upload-stored :
      (o : Outside) (w next : World sql cmp) (t : Task) (message : Bytes)
      → str_eq t.path [] ≡ false
      → str_eq t.tmpfile [] ≡ false
      → upload_for sql cmp (locked sql cmp o w t) o w t ≡ (next, ok message)
      → handle_upload sql cmp o w t ≡ reply sql cmp o next t resp_ok message
  unfolding handle_upload
  handle_upload-stored o w next t message path tmp is =
      neither (str_eq t.path []) (str_eq t.tmpfile []) _ _ path tmp
      ∙ ap (λ r. reply_result sql cmp o r.0 t r.1) is
    where
      neither :
          (a b : Bool) (x y : World sql cmp) → a ≡ false → b ≡ false → (if a || b then x else y) ≡ y
      neither a b x y p q = rw (p, q) refl

  pub handle_download-fetched :
      (o : Outside) (w : World sql cmp) (t : Task) (u : User) (d : Disk) (p : Bytes)
      → str_eq t.path [] ≡ false
      → locked sql cmp o w t ≡ some u
      → u.priority ≡ low
      → fs_download_path o.calls w.disk
          (some w.user_store.storage_root)
          (some t.username)
          (some t.path)
          511
          255
        ≡ (d, ok p)
      → handle_download sql cmp o w t ≡ reply sql cmp o (record w { disk = d }) t resp_ok p
  unfolding handle_download
  handle_download-fetched o w t u d p path is priority down =
      not_taken (str_eq t.path []) _ _ path
      ∙ ap (λ f. download_for sql cmp f o w t) is
      ∙ ap (after_download sql cmp u.priority o w t) down
      ∙ by_priority u.priority priority
    where
      not_taken : (a : Bool) (x y : World sql cmp) → a ≡ false → (if a then x else y) ≡ y
      not_taken a x y h = rw h refl

      by_priority :
          (priority : TaskPriority)
          → priority ≡ low
          → after_download sql cmp priority o w t (d, ok p)
            ≡ reply sql cmp o (record w { disk = d }) t resp_ok p
      by_priority priority h = rw h refl
