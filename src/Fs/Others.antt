-- ===== src/Fs/Others.antt =====
-- What the operations of src/fs.c leave alone, on every branch and for any paths.
use os_lab.Prelude.{
  ℕ, zero, suc, ◌+◌, ◌≡◌, refl, ◌∙◌, Bool, true, false, not, ◌&&◌, [], ◌++◌, Option, some, Result,
  ok, err, Bytes, codes, length, take, drop, inl, inr, snprintf, ◌==◌, Bool-cases, Option-cases,
  if◌then◌else◌,
}
use os_lab.Crypto.{encode_data, decode_data}
use os_lab.Disk.{Disk, contents, read, write, make_dir, read-remove}
use os_lab.Fs.{
  Calls, buffer_size, build_user_path, temp_path, copy_loop, copy, kept_if_ok, openable, temp_dir,
  fs_upload, fs_download_path, fs_delete,
}
use os_lab.Fs.Copy.{Kept, Kept-write}
use os_lab.Fs.Upload.{made_dir}
use os_lab.Fs.Delete.{Deletes, fs_delete_lem}

copy_loop-Kept :
    (c : Calls) (codec : Bool → Bytes → Option Bytes) (src dst : Bytes) (fuel : ℕ) (d : Disk)
    (offset : ℕ)
    → Kept dst d (copy_loop c codec src dst fuel d offset).0
unfolding copy_loop
copy_loop-Kept c codec src dst zero d offset q n = refl
copy_loop-Kept c codec src dst (suc fuel) d offset q n =
    let chunk = if c.reads offset then take buffer_size (drop offset (contents d src)) else [] in
    elim (Bool-cases (length chunk == 0)) [
      | inl over ↦ rw over refl
      | inr more ↦ elim (Option-cases (codec (c.allocates offset) chunk)) [
        | inl failed ↦ rw (more, failed) refl
        | inr (b, coded) ↦ elim (Bool-cases (c.writes offset)) [
          | inr failed ↦ rw (more, coded, failed) refl
          | inl done ↦
              rw (more, coded, done)
                (copy_loop-Kept c codec src dst fuel (write d dst (contents d dst ++ b))
                    (offset + length chunk) q n
                  ∙ Kept-write d dst (contents d dst ++ b) q n)
        ]
      ]
    ]

kept_if_ok-Kept :
    (removes : Bool) (path : Bytes) (d e : Disk) (r : Result Bytes)
    → Kept path d e
    → Kept path d (kept_if_ok removes path e r).0
kept_if_ok-Kept removes path d e (ok b) k q n = k q n
kept_if_ok-Kept true path d e (err m) k q n = rw (read-remove e path q, n) (k q n)
kept_if_ok-Kept false path d e (err m) k q n = k q n

-- Emptying a file, copying into it, and removing it where that went wrong.
copied-Kept :
    (c : Calls) (codec : Bool → Bytes → Option Bytes) (src dst : Bytes) (d d1 : Disk)
    (r : Result Bytes)
    → ((q : Bytes) → read d1 q ≡ read d q)
    → Kept dst d (kept_if_ok c.removes dst (copy c codec src dst (write d1 dst [])).0 r).0
unfolding copy
copied-Kept c codec src dst d d1 r made = kept_if_ok-Kept c.removes dst d _ r λ q n.
    copy_loop-Kept c codec src dst _ (write d1 dst []) 0 q n ∙ Kept-write d1 dst [] q n ∙ made q

-- Either of two ends that change no other file.
either :
    (path : Bytes) (d : Disk) (test : Bool) (x y : Disk × Result Bytes)
    → Kept path d x.0
    → Kept path d y.0
    → Kept path d (if test then x else y).0
either path d true x y k l = k
either path d false x y k l = l

-- An upload changes no file but its target, whatever the temporary file.
pub fs_upload-Kept :
    (c : Calls) (d : Disk) (root user rel tmp : Bytes) (errlen : ℕ)
    → Kept
        (build_user_path root user (some rel) 512)
        d
        (fs_upload c d (some root) (some user) (some rel) (some tmp) errlen).0
unfolding fs_upload
fs_upload-Kept c d root user rel tmp errlen =
    let dst = build_user_path root user (some rel) 512 in
    let dir = snprintf 512 (root ++ codes "/" ++ user) in
    let d1 = if c.mkdir_made then make_dir d dir else d in
    let made = made_dir c.mkdir_made d dir in
    let kept : Kept dst d d1 = λ q n. made q in
    either dst d (not c.mkdir_made && not c.mkdir_exists) _ _ (λ q n. refl)
      (either dst d (not (openable c d1 tmp)) _ _ kept (
        either dst d (not c.opens_target) _ _ kept (copied-Kept c encode_data tmp dst d d1 _ made)))

-- A download changes no file but its temporary file, even if that is the stored file.
pub fs_download_path-Kept :
    (c : Calls) (d : Disk) (root user rel : Bytes) (out_len errlen : ℕ)
    → Kept
        (temp_path user rel c.now)
        d
        (fs_download_path c d (some root) (some user) (some rel) out_len errlen).0
unfolding fs_download_path
fs_download_path-Kept c d root user rel out_len errlen =
    let path = build_user_path root user (some rel) 512 in
    let temp = temp_path user rel c.now in
    let d1 = if c.mkdir_made then make_dir d temp_dir else d in
    let made = made_dir c.mkdir_made d temp_dir in
    let same : Kept temp d d = λ q n. refl in
    let kept : Kept temp d d1 = λ q n. made q in
    either temp d (not (openable c d path)) _ _ same (
      either temp d (not c.seeks) _ _ same (
        either temp d (not c.tells) _ _ same (
          either temp d (not c.mkdir_made && not c.mkdir_exists) _ _ same (
            either temp d (not c.opens_target) _ _ kept
              (copied-Kept c decode_data path temp d d1 _ made)))))

-- A deletion changes no file but its own.
pub fs_delete-Kept :
    (c : Calls) (d : Disk) (root user rel : Bytes) (errlen : ℕ)
    → Kept (build_user_path root user (some rel) 512) d (fs_delete c d root user rel errlen).0
fs_delete-Kept c d root user rel errlen =
    deleted (fs_delete c d root user rel errlen) (fs_delete_lem c d root user rel errlen)
  where
    path : Bytes
    path = build_user_path root user (some rel) 512

    deleted : (r : Disk × Result Bytes) → Deletes path d r → Kept path d r.0
    deleted (e, ok m) (gone, k) q n = k q n
    deleted (e, err m) same q n = rw same refl
