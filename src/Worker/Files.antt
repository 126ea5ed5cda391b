-- ===== src/Worker/Files.antt =====
-- An upload and a download behind it, as tasks of src/worker.c.
use os_lab.Prelude.{
  ◌<◌, ◌≡◌, sym, ap, ap₂, ◌∙◌, true, false, [], some, Result, ok, Bytes, AreBytes, codes, ℤ, length,
  str_eq,
}
use os_lab.Disk.{Disk, read, contents-read}
use os_lab.Task.{Task}
use os_lab.Fs.{build_user_path, temp_path, fs_download_path}
use os_lab.Fs.Upload.{encoded, Works}
use os_lab.Fs.Download.{fs_download_path_lem, fs_download_path_succeeds}
use os_lab.Fs.RoundTrip.{encoded-encoded}
use os_lab.Sql.{Sql}
use os_lab.Users.{User}
use os_lab.Users.Login.{lock_user_copy}
use os_lab.Responses.{Response, resp_ok, send_response}
use os_lab.Worker.{Outside, World, reply, locked, handle_upload, handle_download}
use os_lab.Worker.Moves.{ending, Uploadable, after, uploaded, stored}
use os_lab.Worker.Success.{handle_download-fetched}

module _ (sql : Sql) (cmp : Response → Response → ℤ) where
  -- The tasks of one user for one file: the upload of a temporary file that holds `b`, and a download.
  -- All calls succeed, and neither temporary file is the stored file itself.
  pub record Transfer (o o' : Outside) (w : World sql cmp) (t t' : Task) (b : Bytes) : Type 0 where
    pub sends : Uploadable sql cmp o w t b
    pub u' : User
    pub account' : locked sql cmp o' w t' ≡ some u'
    pub same_user : t'.username ≡ t.username
    pub same_path : t'.path ≡ t.path
    pub bytes : AreBytes b
    pub works' : Works o'.calls
    pub seeks : o'.calls.seeks ≡ true
    pub tells : o'.calls.tells ≡ true
    pub apart' :
        str_eq
          (temp_path t.username t.path o'.calls.now)
          (build_user_path w.user_store.storage_root t.username (some t.path) 512)
        ≡ false
    pub short : length (temp_path t.username t.path o'.calls.now) < 511

  -- The user is told that the upload is done, and then the path of a file with the uploaded bytes.
  pub record Transferred (o o' : Outside) (w : World sql cmp) (t t' : Task) (b : Bytes)
      : Type 0 where
    pub uploaded :
        (handle_upload sql cmp o w t).resp_queues
        ≡ send_response cmp o.allocates_response o.grows w.resp_queues t.client.client_id resp_ok
            (some (codes "uploaded"))
    pub path : Bytes
    pub fetched :
        (handle_download sql cmp o' (handle_upload sql cmp o w t) t').resp_queues
        ≡ send_response cmp o'.allocates_response o'.grows
            (handle_upload sql cmp o w t).resp_queues
            t'.client.client_id
            resp_ok
            (some path)
    pub contents :
        read (handle_download sql cmp o' (handle_upload sql cmp o w t) t').disk path ≡ some b

  module _ (o o' : Outside) (w : World sql cmp) (t t' : Task) (b : Bytes)
      (x : Transfer o o' w t t' b) where
    abbrev root : Bytes
    root = w.user_store.storage_root

    abbrev at_path : Bytes
    at_path = build_user_path root t.username (some t.path) 512

    abbrev temp : Bytes
    temp = temp_path t.username t.path o'.calls.now

    abbrev sent : World sql cmp
    sent = after sql cmp o w t b x.sends

    abbrev upload_told : World sql cmp
    upload_told = reply sql cmp o sent t resp_ok (codes "uploaded")

    upload_done : handle_upload sql cmp o w t ≡ upload_told
    upload_done = uploaded sql cmp o w t b x.sends

    held : read sent.disk at_path ≡ some (encoded b)
    held = stored sql cmp o w t b x.sends

    abbrev down : Disk × Result Bytes
    down = fs_download_path o'.calls sent.disk (some root) (some t.username) (some t.path) 511 255

    down_ok : down ≡ (down.0, ok temp)
    down_ok = ending down (
        fs_download_path_succeeds o'.calls sent.disk root t.username t.path (encoded b) 511 255
          x.works' x.seeks x.tells held x.apart' x.short)

    fetched_bytes : read down.0 temp ≡ some b
    fetched_bytes =
        let (_, fetched, _) =
          rw down_ok at
            (fs_download_path_lem o'.calls sent.disk root t.username t.path 511 255 x.apart') in
        let same = contents-read sent.disk at_path (encoded b) held in
        fetched ∙ ap (λ c. some (encoded c)) same ∙ ap some (encoded-encoded b x.bytes).1

    download_done :
        handle_download sql cmp o' upload_told t'
        ≡ reply sql cmp o' (record upload_told { disk = down.0 }) t' resp_ok temp
    unfolding reply
    download_done =
        let fetch : fs_download_path o'.calls sent.disk (some root) (some t'.username)
              (some t'.path) 511 255
            ≡ down =
          ap₂ (λ n p. fs_download_path o'.calls sent.disk (some root) (some n) (some p) 511 255)
            x.same_user x.same_path in
        let priority =
          (lock_user_copy sql w.user_store t'.username o'.allocates_user x.u' x.account').0 in
        handle_download-fetched sql cmp o' upload_told t' x.u' down.0 temp
          (ap (λ p. str_eq p []) x.same_path ∙ x.sends.path_given) x.account' priority
          (fetch ∙ down_ok)

    -- A user's upload and a later download of the same name, where all calls succeed, the account
    -- exists, the path and the temporary file are named, the size given is at most 10 MiB, neither
    -- temporary file is the stored file itself, and the download's path fits its buffer: the
    -- server tells the user that the upload is done, and then the path of a file that holds the
    -- bytes that were uploaded.
    pub handle_download-upload : Transferred o o' w t t' b
    unfolding reply
    handle_download-upload = record {
      uploaded = ap (λ v. v.resp_queues) upload_done;
      path = temp;
      fetched =
          ap (λ v. (handle_download sql cmp o' v t').resp_queues) upload_done
          ∙ ap (λ v. v.resp_queues) download_done
          ∙ ap
              (λ (v : World sql cmp).
                send_response cmp o'.allocates_response o'.grows v.resp_queues t'.client.client_id
                  resp_ok (some temp))
              (sym upload_done);
      contents =
          ap (λ v. read (handle_download sql cmp o' v t').disk temp) upload_done
          ∙ ap (λ v. read v.disk temp) download_done
          ∙ fetched_bytes;
    }
