-- ===== src/Fs/Delete.antt =====
-- fs_delete of src/fs.c.
use os_lab.Prelude.{
  ℕ, ◌≡◌, refl, false, ◌++◌, none, some, Result, ok, err, Bytes, codes, inl, inr, snprintf,
  Bool-cases, Option-cases, str_eq_self,
}
use os_lab.Disk.{Disk, read, read-remove}
use os_lab.Fs.{Calls, build_user_path, fs_delete, fs_download_path, openable}
use os_lab.Fs.Copy.{Kept}

-- What deleting the file at `path` does. On failure nothing changes.
abbrev pub Deletes : Bytes → Disk → Disk × Result Bytes → Type 0
Deletes path d (e, ok _) = (read e path ≡ none) × Kept path d e
Deletes path d (e, err _) = e ≡ d

-- A deletion that succeeds leaves no file at the path and every other file, and one that fails changes nothing.
pub fs_delete_lem :
    (c : Calls) (d : Disk) (root user rel : Bytes) (errlen : ℕ)
    → Deletes (build_user_path root user (some rel) 512) d (fs_delete c d root user rel errlen)
unfolding fs_delete
fs_delete_lem c d root user rel errlen =
    let path = build_user_path root user (some rel) 512 in
    elim (Option-cases (read d path)) [
      | inl gone ↦ elim (Bool-cases c.removes_dir) [
        | inl removes ↦
            rw (gone, removes)
              (rw (read-remove d path path, str_eq_self path), λ q n. rw (read-remove d path q, n))
        | inr fails ↦ rw (gone, fails) refl
      ]
      | inr (b, here) ↦ elim (Bool-cases c.removes) [
        | inl removes ↦
            rw (here, removes)
              (rw (read-remove d path path, str_eq_self path), λ q n. rw (read-remove d path q, n))
        | inr fails ↦ rw (here, fails) refl
      ]
    ]

missing : (c : Calls) (d : Disk) (path : Bytes) → read d path ≡ none → openable c d path ≡ false
missing c d path h = rw (h, openable)

-- Behind a successful deletion of a file, a download of it fails with the message for a file that is
-- not there, and changes nothing.
pub download-delete :
    (c c' : Calls) (d e : Disk) (root user rel r : Bytes) (errlen out_len errlen' : ℕ)
    → fs_delete c d root user rel errlen ≡ (e, ok r)
    → fs_download_path c' e (some root) (some user) (some rel) out_len errlen'
      ≡ (e, err (snprintf errlen' (codes "File not found or inaccessible: " ++ c'.strerror)))
unfolding fs_download_path
download-delete c c' d e root user rel r errlen out_len errlen' h =
    let (gone, _) = rw h at (fs_delete_lem c d root user rel errlen) in
    rw (missing c' e (build_user_path root user (some rel) 512) gone)
