-- ===== src/Fs/Upload.antt =====
-- fs_upload of src/fs.c.
use os_lab.Prelude.{
  ℕ, ◌+◌, ◌≡◌, ◌⊎◌, refl, ◌∙◌, Bool, true, false, not, ◌&&◌, [], ◌++◌, none, some, Result, ok, err,
  Bytes, codes, length, inl, inr, snprintf, arith, Bool-cases, str_eq, str_eq_self, if◌then◌else◌,
}
use os_lab.Crypto.{xor_cipher, secret, encode_data}
use os_lab.Disk.{
  Disk, read, write, remove, make_dir, contents, contents-cong, read-write, read-remove,
  read-make_dir,
}
use os_lab.Fs.{
  Calls, CopyEnd, copied, codec_failed, write_failed, read_failed, out_of_fuel, buffer_size,
  build_user_path, copy, openable, upload_result, kept_if_ok, fs_upload,
}
use os_lab.Fs.Chunks.{chunk_map}
use os_lab.Fs.Copy.{Kept, Kept-write, Post, copy-Post, Healthy, copy_healthy}

-- The bytes that are stored for a file: each buffer of 8192 bytes encoded by itself.
abbrev pub encoded : Bytes → Bytes
encoded b = chunk_map buffer_size (xor_cipher secret) (length b + 1) b

pub encode_gives : (a : Bool) (b b' : Bytes) → encode_data a b ≡ some b' → b' ≡ xor_cipher secret b
unfolding encode_data
encode_gives a b b' h = ground arith

pub encode_works : (b : Bytes) → encode_data true b ≡ some (xor_cipher secret b)
unfolding encode_data
encode_works b = refl

-- What an upload of the file at `src` to the path `dst` does to the disk. On success the target
-- holds the encoded file. On failure it is as before, or gone, or could
-- not be removed. No other file changes.
abbrev pub Uploads : Bool → Bytes → Bytes → Disk → Disk × Result Bytes → Type 0
Uploads removes src dst d (e, ok _) = (read e dst ≡ some (encoded (contents d src))) × Kept dst d e
Uploads removes src dst d (e, err _) =
    ((read e dst ≡ read d dst) ⊎ (read e dst ≡ none) ⊎ (removes ≡ false)) × Kept dst d e

module _ (c : Calls) (errlen : ℕ) (src dst : Bytes) (d : Disk) where
  removed :
      (removes : Bool) (e : Disk)
      → Kept dst d e
      → ((read (if removes then remove e dst else e) dst ≡ read d dst)
          ⊎ (read (if removes then remove e dst else e) dst ≡ none)
          ⊎ (removes ≡ false))
        × Kept dst d (if removes then remove e dst else e)
  removed true e k = (
    inr (inl (rw (read-remove e dst dst, str_eq_self dst))),
    λ q n. rw (read-remove e dst q, n) (k q n),
  )
  removed false e k = (inr (inr refl), k)

  -- The end of an upload, behind its copy loop from the disk `d0`.
  upload_end :
      (d0 : Disk) (r : Disk × CopyEnd)
      → Kept dst d d0
      → contents d0 src ≡ contents d src
      → Post (xor_cipher secret) dst [] (contents d0 src) d0 (length (contents d0 src) + 1) r
      → Uploads c.removes src dst d (kept_if_ok c.removes dst r.0 (upload_result c errlen r.1))
  upload_end d0 (e, copied) k same (held, kept) = elim (Bool-cases c.closes) [
    | inl fine ↦ rw fine (rw same at held, λ q n. kept q n ∙ k q n)
    | inr bad ↦ rw bad (removed c.removes e (λ q n. kept q n ∙ k q n))
  ]
  upload_end d0 (e, out_of_fuel) k same p = absurd p
  upload_end d0 (e, codec_failed) k same p = removed c.removes e (λ q n. p q n ∙ k q n)
  upload_end d0 (e, write_failed) k same p = removed c.removes e (λ q n. p q n ∙ k q n)
  upload_end d0 (e, read_failed) k same p = removed c.removes e (λ q n. p q n ∙ k q n)

  -- Emptying the target on a disk with the same files.
  emptied :
      (d1 : Disk)
      → str_eq dst src ≡ false
      → ((q : Bytes) → read d1 q ≡ read d q)
      → Uploads c.removes src dst d (
          kept_if_ok c.removes dst
            (copy c encode_data src dst (write d1 dst [])).0
            (upload_result c errlen (copy c encode_data src dst (write d1 dst [])).1))
  emptied d1 apart made =
      let d0 = write d1 dst [] in
      let kept : Kept dst d d0 = λ q n. Kept-write d1 dst [] q n ∙ made q in
      let held : read d0 dst ≡ some [] = rw (read-write d1 dst dst [], str_eq_self dst) in
      upload_end d0 (copy c encode_data src dst d0) kept (contents-cong d0 d src (kept src apart))
        (copy-Post c encode_data (xor_cipher secret) encode_gives src dst apart d0 held)

pub made_dir :
    (made : Bool) (d : Disk) (dir q : Bytes)
    → read (if made then make_dir d dir else d) q ≡ read d q
made_dir true d dir q = read-make_dir d dir q
made_dir false d dir q = refl

-- On every branch, where the temporary file is not the target itself: a successful upload leaves the
-- encoded temporary file at the target, a failed one leaves the target as it was or removes it, unless
-- the removal fails, and every other file is as before.
pub fs_upload_lem :
    (c : Calls) (d : Disk) (root user rel tmp : Bytes) (errlen : ℕ)
    → str_eq (build_user_path root user (some rel) 512) tmp ≡ false
    → Uploads c.removes tmp
        (build_user_path root user (some rel) 512)
        d
        (fs_upload c d (some root) (some user) (some rel) (some tmp) errlen)
unfolding fs_upload
fs_upload_lem c d root user rel tmp errlen apart =
    let dst = build_user_path root user (some rel) 512 in
    let dir = snprintf 512 (root ++ codes "/" ++ user) in
    let d1 = if c.mkdir_made then make_dir d dir else d in
    let made = made_dir c.mkdir_made d dir in
    elim (Bool-cases (not c.mkdir_made && not c.mkdir_exists)) [
      | inl no_dir ↦ rw no_dir (inl refl, λ q n. refl)
      | inr has_dir ↦ elim (Bool-cases (not (openable c d1 tmp))) [
        | inl no_source ↦ rw (has_dir, no_source) (inl (made dst), λ q n. made q)
        | inr source ↦ elim (Bool-cases (not c.opens_target)) [
          | inl no_target ↦ rw (has_dir, source, no_target) (inl (made dst), λ q n. made q)
          | inr target ↦ rw (has_dir, source, target) (emptied c errlen tmp dst d d1 apart made)
        ]
      ]
    ]

pub openable-true :
    (c : Calls) (d : Disk) (path b : Bytes)
    → read d path ≡ some b
    → c.opens_source ≡ true
    → openable c d path ≡ true
openable-true c d path b held opens = rw (held, openable) opens

-- The calls of a whole upload succeed, of a file that is there.
pub record Works (c : Calls) : Type 0 where
  pub copying : Healthy c
  pub dir_ready : (not c.mkdir_made && not c.mkdir_exists) ≡ false
  pub opening : c.opens_source ≡ true
  pub creating : c.opens_target ≡ true
  pub closing : c.closes ≡ true

-- An upload whose calls all succeed, of a file that exists and is not the target itself, succeeds.
pub fs_upload_succeeds :
    (c : Calls) (d : Disk) (root user rel tmp b : Bytes) (errlen : ℕ)
    → Works c
    → read d tmp ≡ some b
    → str_eq (build_user_path root user (some rel) 512) tmp ≡ false
    → (fs_upload c d (some root) (some user) (some rel) (some tmp) errlen).1 ≡ ok []
unfolding fs_upload
fs_upload_succeeds c d root user rel tmp b errlen v held apart =
    let dst = build_user_path root user (some rel) 512 in
    let dir = snprintf 512 (root ++ codes "/" ++ user) in
    let d1 = if c.mkdir_made then make_dir d dir else d in
    rw (
      v.dir_ready,
      openable-true c d1 tmp b (made_dir c.mkdir_made d dir tmp ∙ held) v.opening,
      v.creating,
      copy_healthy c encode_data (xor_cipher secret) encode_works tmp dst apart v.copying
          (write d1 dst []),
      v.closing,
    )
