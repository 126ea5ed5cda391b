-- ===== src/Fs/RoundTrip.antt =====
-- What fs_upload of src/fs.c stores, fs_download_path gives back.
use os_lab.Prelude.{
  ℕ, ◌+◌, ◌<◌, ◌≡◌, false, true, some, Result, ok, [], Bytes, AreBytes, length, str_eq, arith,
}
use os_lab.Crypto.{xor_cipher, secret}
use os_lab.Crypto.Laws.{length-xor_cipher, xor_cipher_undone}
use os_lab.Disk.{Disk, read, contents, contents-read}
use os_lab.Fs.{Calls, buffer_size, build_user_path, temp_path, fs_upload, fs_download_path}
use os_lab.Fs.Chunks.{length-chunk_map, chunk_map-undone}
use os_lab.Fs.Upload.{encoded, fs_upload_lem, Works, fs_upload_succeeds}
use os_lab.Fs.Download.{fs_download_path_lem, fs_download_path_succeeds}

ending : (r : Disk × Result Bytes) {o : Result Bytes} → r.1 ≡ o → r ≡ (r.0, o)
ending r h = λ i. (r.0, h i)

-- The stored form of a file is as long as the file, and its buffers decode to it.
pub encoded-encoded :
    (b : Bytes) → AreBytes b → (length (encoded b) ≡ length b) × (encoded (encoded b) ≡ b)
encoded-encoded b v =
    let size : length (encoded b) ≡ length b =
      length-chunk_map buffer_size (xor_cipher secret) (omega arith) (length-xor_cipher secret)
        (length b + 1) b (omega arith) in
    (
      size,
      rw size (
          chunk_map-undone buffer_size (xor_cipher secret) (xor_cipher secret) (omega arith)
            (length-xor_cipher secret) (λ x w. (xor_cipher_undone x w).1) (length b + 1) b
            (omega arith) v),
    )

module _ (c c' : Calls) (d : Disk) (root user rel tmp : Bytes) (errlen out_len errlen' : ℕ)
    (bytes : AreBytes (contents d tmp))
    (apart : str_eq (build_user_path root user (some rel) 512) tmp ≡ false)
    (apart' : str_eq (temp_path user rel c'.now) (build_user_path root user (some rel) 512)
      ≡ false) where
  abbrev path : Bytes
  path = build_user_path root user (some rel) 512

  -- Whatever calls failed or not: when an upload has succeeded and then a download of the same name
  -- succeeds, the file that the download names holds the bytes that were uploaded, where these are
  -- bytes and neither temporary file is the stored file itself.
  pub download-upload :
      (d1 d2 : Disk) (r p : Bytes)
      → fs_upload c d (some root) (some user) (some rel) (some tmp) errlen ≡ (d1, ok r)
      → fs_download_path c' d1 (some root) (some user) (some rel) out_len errlen' ≡ (d2, ok p)
      → read d2 p ≡ some (contents d tmp)
  download-upload d1 d2 r p up down =
      let (stored, _) = rw up at (fs_upload_lem c d root user rel tmp errlen apart) in
      let (named, held, _) =
        rw down at (fs_download_path_lem c' d1 root user rel out_len errlen' apart') in
      let same : contents d1 path ≡ encoded (contents d tmp) = contents-read d1 path _ stored in
      rw (named, held, same, (encoded-encoded (contents d tmp) bytes).1)

  -- Where every call succeeds, the temporary file exists and holds bytes, neither temporary file is
  -- the stored file itself, and the decoded copy's path fits the caller's buffer: the upload succeeds, a download behind it succeeds, and the file that the
  -- download names holds the bytes that were uploaded.
  pub download-upload_succeeds :
      (b : Bytes)
      → Works c
      → Works c'
      → c'.seeks ≡ true
      → c'.tells ≡ true
      → read d tmp ≡ some b
      → length (temp_path user rel c'.now) < out_len
      → (d1 d2 : Disk) × (p : Bytes) × (fs_upload c d
            (some root)
            (some user)
            (some rel)
            (some tmp)
            errlen
          ≡ (d1, ok []))
        × (fs_download_path c' d1 (some root) (some user) (some rel) out_len errlen' ≡ (d2, ok p))
        × (read d2 p ≡ some b)
  download-upload_succeeds b v v' seek tell held short =
      let up = fs_upload c d (some root) (some user) (some rel) (some tmp) errlen in
      let up_ok = ending up (fs_upload_succeeds c d root user rel tmp b errlen v held apart) in
      let (stored, _) = rw up_ok at (fs_upload_lem c d root user rel tmp errlen apart) in
      let down = fs_download_path c' up.0 (some root) (some user) (some rel) out_len errlen' in
      let down_ok = ending down (
        fs_download_path_succeeds c' up.0 root user rel _ out_len errlen' v' seek tell stored apart'
          short) in
      let same = contents-read d tmp b held in
      let whole = rw same at (download-upload up.0 down.0 [] _ up_ok down_ok) in
      (up.0, down.0, temp_path user rel c'.now, up_ok, down_ok, whole)
