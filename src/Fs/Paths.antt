-- ===== src/Fs/Paths.antt =====
-- The path of the decoded copy that fs_download_path of src/fs.c makes.
use os_lab.Prelude.{
  ℕ, ◌≤◌, ◌≡◌, refl, false, [], ◌∷◌, ◌++◌, Bytes, All, codes, snprintf, length, length-take,
  length-map, take, decimal, arith,
}
use os_lab.Fs.{temp_dir, temp_path, sanitize, is_problematic}

sanitize-clean : (b : Bytes) → All (λ x. is_problematic x ≡ false) (sanitize b)
unfolding sanitize
sanitize-clean [] = tt
sanitize-clean (x ∷ b) = (ground arith, sanitize-clean b)

length-sanitize : (b : Bytes) → length (sanitize b) ≡ length b
unfolding sanitize
length-sanitize b = length-map _ b

-- The path has no character that the loop replaces, the slash among them, starts with an underscore,
-- and has at most 511 bytes: it is a name in the working directory, not one below the directory
-- that the function has just made for it.
pub temp_path_flat :
    (user rel : Bytes) (now : ℕ)
    → All (λ x. is_problematic x ≡ false) (temp_path user rel now)
      × (take 23 (temp_path user rel now) ≡ codes "_tmp_os_lab7_downloads_")
      × (length (temp_path user rel now) ≤ 511)
unfolding temp_path
temp_path_flat user rel now =
    let text =
      temp_dir
      ++ codes "/"
      ++ user
      ++ codes "_"
      ++ rel
      ++ codes "_"
      ++ decimal now
      ++ codes ".tmp" in
    (
      sanitize-clean (snprintf 512 text),
      refl,
      omega (arith, length-sanitize (snprintf 512 text), length-take 511 text),
    )

-- Two downloads in the same second share a temporary file when joining user and file name by an
-- underscore, after the replacements, gives the same text.
pub temp_path_shared :
    (user user' rel rel' : Bytes) (now : ℕ)
    → user ++ codes "_" ++ rel ≡ user' ++ codes "_" ++ rel'
    → temp_path user rel now ≡ temp_path user' rel' now
unfolding temp_path
temp_path_shared user user' rel rel' now h = rw h
