-- ===== src/Fs.antt =====
-- include/fs.h and src/fs.c: the files of a user, stored encoded below the storage root. A store is
-- given by its root. The outcome of each call that may fail for a reason outside the program is a
-- parameter.
pub mod Chunks
pub mod Copy
pub mod Upload
pub mod Download
pub mod RoundTrip
pub mod Paths
pub mod Others
pub mod Names
pub mod Listing
pub mod Delete
pub mod Tests
use os_lab.Prelude.{
  ℕ, zero, suc, ◌+◌, ◌-◌, Bool, true, false, not, ◌&&◌, ◌||◌, List, [], ◌∷◌, ◌++◌, map, Option,
  none, some, Result, ok, err, Bytes, codes, str_eq, snprintf, decimal, length, take, drop, leb,
  ◌==◌, if◌then◌else◌,
}
use os_lab.Crypto.{encode_data, decode_data}
use os_lab.Disk.{Disk, read, contents, write, remove, make_dir}

-- How the calls of the C library go that one operation makes.
pub record Calls : Type 0 where
  -- `mkdir` makes the directory, finds it, or fails.
  pub mkdir_made : Bool
  pub mkdir_exists : Bool
  -- `fopen` of an existing file for reading, and of any file for writing.
  pub opens_source : Bool
  pub opens_target : Bool
  -- `fseek` and `ftell`.
  pub seeks : Bool
  pub tells : Bool
  -- `fread`, `malloc` and `fwrite` at an offset of the source.
  pub reads : ℕ → Bool
  pub allocates : ℕ → Bool
  pub writes : ℕ → Bool
  -- `fclose` of the target.
  pub closes : Bool
  -- `remove` of a file that is there, and of a path that is no file: an empty directory.
  pub removes : Bool
  pub removes_dir : Bool
  -- The text of `strerror(errno)`, and the seconds of `time(NULL)`.
  pub strerror : Bytes
  pub now : ℕ

-- `build_user_path`
unfoldable pub build_user_path : Bytes → Bytes → Option Bytes → ℕ → Bytes
build_user_path root user none out_len = snprintf out_len (root ++ codes "/" ++ user ++ codes "/")
build_user_path root user (some rel) out_len =
    snprintf out_len (root ++ codes "/" ++ user ++ codes "/" ++ rel)

abbrev pub buffer_size : ℕ
buffer_size = 8192

-- How a copy loop ends. The fuel of the loop never runs out.
pub data CopyEnd : Type 0 where
  copied codec_failed write_failed read_failed out_of_fuel : CopyEnd

-- The loop of both `fs_upload` and `fs_download_path`: read a buffer, encode or decode it, and append
-- the result to the target. A read error ends the loop with no bytes.
pub copy_loop :
    Calls → (Bool → Bytes → Option Bytes) → Bytes → Bytes → ℕ → Disk → ℕ → Disk × CopyEnd
copy_loop c codec src dst zero d offset = (d, out_of_fuel)
copy_loop c codec src dst (suc fuel) d offset =
    let chunk = if c.reads offset then take buffer_size (drop offset (contents d src)) else [] in
    let appended = λ (b : Bytes). write d dst (contents d dst ++ b) in
    let next = λ (b : Bytes). copy_loop c codec src dst fuel (appended b) (offset + length chunk) in
    if length chunk == 0
    then (d, if c.reads offset then copied else read_failed)
    else elim (codec (c.allocates offset) chunk) [
      | none ↦ (d, codec_failed)
      | some b ↦ elim (c.writes offset) [ true ↦ next b | false ↦ (d, write_failed) ]
    ]

unfoldable pub copy : Calls → (Bool → Bytes → Option Bytes) → Bytes → Bytes → Disk → Disk × CopyEnd
unfolding copy_loop contents read write
copy c codec src dst d = copy_loop c codec src dst (length (contents d src) + 1) d 0

-- `fopen(path, "rb")`
abbrev pub openable : Calls → Disk → Bytes → Bool
openable c d path = elim (read d path) [ none ↦ false | some _ ↦ c.opens_source ]

abbrev failed : Calls → ℕ → Bytes → Result Bytes
failed c errlen text = err (snprintf errlen (text ++ c.strerror))

-- The message of a copy loop that did not end well, if `fclose` does not fail behind a good one.
abbrev upload_result : Calls → ℕ → CopyEnd → Result Bytes
upload_result c errlen copied =
    if c.closes then ok [] else failed c errlen (codes "Failed to close destination file: ")
upload_result c errlen codec_failed = err (snprintf errlen (codes "Failed to encode data"))
upload_result c errlen write_failed = failed c errlen (codes "Write failed: ")
upload_result c errlen read_failed = failed c errlen (codes "Read error: ")
upload_result c errlen out_of_fuel = err []

-- The end of both functions: a target that was not written whole is removed, if `remove` succeeds,
-- whose result is not looked at.
abbrev kept_if_ok : Bool → Bytes → Disk → Result Bytes → Disk × Result Bytes
kept_if_ok removes path d (ok b) = (d, ok b)
kept_if_ok removes path d (err message) = (if removes then remove d path else d, err message)

-- A null pointer is `none`. The result of success carries no value.
unfoldable pub fs_upload :
    Calls → Disk → (store user dst_relpath tmp_src : Option Bytes) → ℕ → Disk × Result Bytes
unfolding copy build_user_path
fs_upload c d (some root) (some user) (some dst_relpath) (some tmp_src) errlen =
    let dst = build_user_path root user (some dst_relpath) 512 in
    let dir_path = snprintf 512 (root ++ codes "/" ++ user) in
    let d1 = if c.mkdir_made then make_dir d dir_path else d in
    let (d2, end) = copy c encode_data tmp_src dst (write d1 dst []) in
    if not c.mkdir_made && not c.mkdir_exists
    then (d, failed c errlen (codes "Failed to create user directory: "))
    else if not (openable c d1 tmp_src)
    then (d1, failed c errlen (codes "Failed to open source file: "))
    else if not c.opens_target
    then (d1, failed c errlen (codes "Failed to create destination file: "))
    else kept_if_ok c.removes dst d2 (upload_result c errlen end)
fs_upload c d _ _ _ _ errlen = (d, err (snprintf errlen (codes "Invalid parameters")))

abbrev temp_dir : Bytes
temp_dir = codes "/tmp/os_lab7_downloads"

abbrev pub is_problematic : ℕ → Bool
is_problematic b =
    b == b'/'
    || b == b'\\'
    || b == b':'
    || b == b'*'
    || b == b'?'
    || b == b'"'
    || b == b'<'
    || b == b'>'
    || b == b'|'

sanitize : Bytes → Bytes
sanitize = map (λ b. if is_problematic b then b'_' else b)

-- The name of the decoded copy, after the loop over its characters.
unfoldable pub temp_path : Bytes → Bytes → ℕ → Bytes
unfolding sanitize decimal
temp_path user relpath now = sanitize (
    snprintf 512 (
      temp_dir
      ++ codes "/"
      ++ user
      ++ codes "_"
      ++ relpath
      ++ codes "_"
      ++ decimal now
      ++ codes ".tmp"))

abbrev download_result : Calls → ℕ → CopyEnd → Bytes → Result Bytes
download_result c errlen copied path =
    if c.closes then ok path else failed c errlen (codes "Error closing temporary file: ")
download_result c errlen codec_failed path = err (snprintf errlen (codes "Failed to decode data"))
download_result c errlen write_failed path =
    failed c errlen (codes "Failed to write to temporary file: ")
download_result c errlen read_failed path = failed c errlen (codes "Error reading from file: ")
download_result c errlen out_of_fuel path = err []

-- The check of the path's length at the end.
abbrev fits_out : ℕ → ℕ → Result Bytes → Result Bytes
fits_out out_len errlen (ok path) =
    if leb out_len (length path)
    then err (snprintf errlen (codes "Temporary file path is too long"))
    else ok path
fits_out out_len errlen (err message) = err message

-- The result of success is the path of the decoded copy.
unfoldable pub fs_download_path :
    Calls → Disk → (store user relpath : Option Bytes) → (out_len errlen : ℕ) → Disk × Result Bytes
unfolding copy build_user_path temp_path
fs_download_path c d (some root) (some user) (some relpath) out_len errlen =
    let path = build_user_path root user (some relpath) 512 in
    let d1 = if c.mkdir_made then make_dir d temp_dir else d in
    let temp = temp_path user relpath c.now in
    let (d2, end) = copy c decode_data path temp (write d1 temp []) in
    if not (openable c d path)
    then (d, failed c errlen (codes "File not found or inaccessible: "))
    else if not c.seeks
    then (d, failed c errlen (codes "Failed to determine file size: "))
    else if not c.tells
    then (d, failed c errlen (codes "Failed to get file size: "))
    else if not c.mkdir_made && not c.mkdir_exists
    then (d, failed c errlen (codes "Failed to create temp directory: "))
    else if not c.opens_target
    then (d1, failed c errlen (codes "Failed to create temporary file: "))
    else kept_if_ok c.removes temp d2 (fits_out out_len errlen (download_result c errlen end temp))
fs_download_path c d _ _ _ out_len errlen = (d, err (snprintf errlen (codes "Invalid parameters")))

-- `remove` takes away a file, or an empty directory, as for an empty `relpath`.
unfoldable pub fs_delete : Calls → Disk → (root user : Bytes) → Bytes → ℕ → Disk × Result Bytes
unfolding build_user_path
fs_delete c d root user relpath errlen =
    let path = build_user_path root user (some relpath) 512 in
    let gone : Bool = elim (read d path) [ none ↦ c.removes_dir | some _ ↦ c.removes ] in
    if gone then (remove d path, ok []) else (d, err (snprintf errlen (codes "remove failed")))

-- The loop over the directory's entries: `buf` holds the text so far. The entry that does not fit is
-- cut, and ends the loop.
pub list_loop : ℕ → Bytes → List Bytes → Bytes
list_loop buflen buf [] = buf
list_loop buflen buf (name ∷ names) =
    let dots = str_eq name (codes ".") || str_eq name (codes "..") in
    let line = name ++ codes "\n" in
    let fits = list_loop buflen (buf ++ line) names in
    let skipped = list_loop buflen buf names in
    if dots
    then skipped
    else if leb (buflen - length buf) (length line)
    then buf ++ snprintf (buflen - length buf) line
    else fits

-- `entries` is what `opendir` and `readdir` give for the user's directory, or `none`.
unfoldable pub fs_list : Option (List Bytes) → (buflen errlen : ℕ) → Result Bytes
unfolding list_loop
fs_list none buflen errlen = err (snprintf errlen (codes "opendir failed"))
fs_list (some entries) buflen errlen = ok (list_loop buflen [] entries)
