-- ===== src/Fs/Download.antt =====
-- fs_download_path of src/fs.c.
use os_lab.Prelude.{
  ℕ, ◌+◌, ◌<◌, ◌≡◌, ◌⊎◌, refl, ◌∙◌, Bool, true, false, not, ◌&&◌, [], none, some, Result, ok, err,
  Bytes, length, inl, inr, leb, arith, Bool-cases, str_eq, str_eq_self, if◌then◌else◌,
}
use os_lab.Crypto.{xor_cipher, secret, decode_data}
use os_lab.Disk.{
  Disk, read, write, remove, make_dir, contents, contents-cong, read-write, read-remove,
}
use os_lab.Fs.{
  Calls, CopyEnd, copied, codec_failed, write_failed, read_failed, out_of_fuel, build_user_path,
  copy, openable, temp_path, temp_dir, download_result, fits_out, kept_if_ok, fs_download_path,
}
use os_lab.Fs.Copy.{Kept, Kept-write, Post, copy-Post, copy_healthy}
use os_lab.Fs.Upload.{encoded, encode_gives, encode_works, openable-true, made_dir, Works}

decode_gives : (a : Bool) (b b' : Bytes) → decode_data a b ≡ some b' → b' ≡ xor_cipher secret b
unfolding decode_data
decode_gives a b b' h = encode_gives a b b' h

decode_works : (b : Bytes) → decode_data true b ≡ some (xor_cipher secret b)
unfolding decode_data
decode_works b = encode_works b

-- What a download of the file at `src` into the temporary file `temp` does to the disk. On success
-- the result is the path of the temporary file, which holds the decoded file. On failure the
-- temporary file is as before, or gone, or could not be removed. No other file changes. Decoding maps a buffer as encoding does.
abbrev pub Downloads : Bool → Bytes → Bytes → Disk → Disk × Result Bytes → Type 0
Downloads removes src temp d (e, ok path) =
    (path ≡ temp) × (read e temp ≡ some (encoded (contents d src))) × Kept temp d e
Downloads removes src temp d (e, err _) =
    ((read e temp ≡ read d temp) ⊎ (read e temp ≡ none) ⊎ (removes ≡ false)) × Kept temp d e

module _ (c : Calls) (out_len errlen : ℕ) (src temp : Bytes) (d : Disk) where
  removed :
      (removes : Bool) (e : Disk)
      → Kept temp d e
      → ((read (if removes then remove e temp else e) temp ≡ read d temp)
          ⊎ (read (if removes then remove e temp else e) temp ≡ none)
          ⊎ (removes ≡ false))
        × Kept temp d (if removes then remove e temp else e)
  removed true e k = (
    inr (inl (rw (read-remove e temp temp, str_eq_self temp))),
    λ q n. rw (read-remove e temp q, n) (k q n),
  )
  removed false e k = (inr (inr refl), k)

  -- The end of a download, behind its copy loop from the disk `d0`.
  download_end :
      (d0 : Disk) (r : Disk × CopyEnd)
      → Kept temp d d0
      → contents d0 src ≡ contents d src
      → Post (xor_cipher secret) temp [] (contents d0 src) d0 (length (contents d0 src) + 1) r
      → Downloads c.removes src temp d (
          kept_if_ok c.removes temp r.0
            (fits_out out_len errlen (download_result c errlen r.1 temp)))
  download_end d0 (e, copied) k same (held, kept) = elim (Bool-cases c.closes) [
    | inl fine ↦ elim (Bool-cases (leb out_len (length temp))) [
      | inl long ↦ rw (fine, long) (removed c.removes e (λ q n. kept q n ∙ k q n))
      | inr short ↦ rw (fine, short) (refl, rw same at held, λ q n. kept q n ∙ k q n)
    ]
    | inr bad ↦ rw bad (removed c.removes e (λ q n. kept q n ∙ k q n))
  ]
  download_end d0 (e, out_of_fuel) k same p = absurd p
  download_end d0 (e, codec_failed) k same p = removed c.removes e (λ q n. p q n ∙ k q n)
  download_end d0 (e, write_failed) k same p = removed c.removes e (λ q n. p q n ∙ k q n)
  download_end d0 (e, read_failed) k same p = removed c.removes e (λ q n. p q n ∙ k q n)

  -- Emptying the temporary file on a disk with the same files.
  emptied :
      (d1 : Disk)
      → str_eq temp src ≡ false
      → ((q : Bytes) → read d1 q ≡ read d q)
      → Downloads c.removes src temp d (
          kept_if_ok c.removes temp (copy c decode_data src temp (write d1 temp [])).0 (
            fits_out out_len errlen
              (download_result c errlen (copy c decode_data src temp (write d1 temp [])).1 temp)))
  emptied d1 apart made =
      let d0 = write d1 temp [] in
      let kept : Kept temp d d0 = λ q n. Kept-write d1 temp [] q n ∙ made q in
      let held : read d0 temp ≡ some [] = rw (read-write d1 temp temp [], str_eq_self temp) in
      download_end d0 (copy c decode_data src temp d0) kept
        (contents-cong d0 d src (kept src apart))
        (copy-Post c decode_data (xor_cipher secret) decode_gives src temp apart d0 held)

-- On every branch, where the temporary file is not the stored file: a successful download returns
-- the path of the temporary file and leaves the stored file there, decoded buffer by buffer; a failed
-- one leaves the temporary file as it was or removes it, unless the removal fails; and every other file
-- is as before.
pub fs_download_path_lem :
    (c : Calls) (d : Disk) (root user rel : Bytes) (out_len errlen : ℕ)
    → str_eq (temp_path user rel c.now) (build_user_path root user (some rel) 512) ≡ false
    → Downloads c.removes
        (build_user_path root user (some rel) 512)
        (temp_path user rel c.now)
        d
        (fs_download_path c d (some root) (some user) (some rel) out_len errlen)
unfolding fs_download_path
fs_download_path_lem c d root user rel out_len errlen apart =
    let path = build_user_path root user (some rel) 512 in
    let temp = temp_path user rel c.now in
    let d1 = if c.mkdir_made then make_dir d temp_dir else d in
    let made = made_dir c.mkdir_made d temp_dir in
    elim (Bool-cases (not (openable c d path))) [
      | inl no_source ↦ rw no_source (inl refl, λ q n. refl)
      | inr source ↦ elim (Bool-cases (not c.seeks)) [
        | inl no_seek ↦ rw (source, no_seek) (inl refl, λ q n. refl)
        | inr seek ↦ elim (Bool-cases (not c.tells)) [
          | inl no_tell ↦ rw (source, seek, no_tell) (inl refl, λ q n. refl)
          | inr tell ↦ elim (Bool-cases (not c.mkdir_made && not c.mkdir_exists)) [
            | inl no_dir ↦ rw (source, seek, tell, no_dir) (inl refl, λ q n. refl)
            | inr has_dir ↦ elim (Bool-cases (not c.opens_target)) [
              | inl no_target ↦
                  rw (source, seek, tell, has_dir, no_target) (inl (made temp), λ q n. made q)
              | inr target ↦
                  rw (source, seek, tell, has_dir, target)
                    (emptied c out_len errlen path temp d d1 apart made)
            ]
          ]
        ]
      ]
    ]

-- A download whose calls all succeed, of a file that exists, into another temporary file whose path
-- is shorter than the caller's buffer, succeeds.
pub fs_download_path_succeeds :
    (c : Calls) (d : Disk) (root user rel b : Bytes) (out_len errlen : ℕ)
    → Works c
    → c.seeks ≡ true
    → c.tells ≡ true
    → read d (build_user_path root user (some rel) 512) ≡ some b
    → str_eq (temp_path user rel c.now) (build_user_path root user (some rel) 512) ≡ false
    → length (temp_path user rel c.now) < out_len
    → (fs_download_path c d (some root) (some user) (some rel) out_len errlen).1
      ≡ ok (temp_path user rel c.now)
unfolding fs_download_path
fs_download_path_succeeds c d root user rel b out_len errlen v seek tell held apart short =
    let path = build_user_path root user (some rel) 512 in
    let temp = temp_path user rel c.now in
    let d1 = if c.mkdir_made then make_dir d temp_dir else d in
    let fits : leb out_len (length temp) ≡ false = ground arith in
    rw (
      openable-true c d path b held v.opening,
      seek,
      tell,
      v.dir_ready,
      v.creating,
      copy_healthy c decode_data (xor_cipher secret) decode_works path temp apart v.copying
          (write d1 temp []),
      v.closing,
      fits,
    )
