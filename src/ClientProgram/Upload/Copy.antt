-- ===== src/ClientProgram/Upload/Copy.antt =====
-- What upload_file of src/client_program.c gives the server: the temporary file and its size.
use os_lab.Prelude.{
  ℕ, zero, suc, ◌+◌, ◌-◌, ◌≤◌, ◌<◌, ◌≡◌, refl, sym, ap, ◌∙◌, Bool, true, false, not, [], ◌++◌,
  Option, none, some, Bytes, str_eq, str_eq_self, length, length-take, length-drop, take, drop,
  take-drop, take-length-take, take_all, ==_iff, arith, inl, inr, Bool-cases, ◌==◌, if◌then◌else◌,
}
use os_lab.ClientProgram.Commands.{upload, command}
use os_lab.Disk.{Disk, remove, read, contents, write, read-write, contents-read, read-remove}
use os_lab.ClientProgram.Connection.{ClientState, exchange, judged}
use os_lab.ClientProgram.Download.{Local}
use os_lab.ClientProgram.Upload.{Files, tmpfile, tmp_loop, tmp_copy, send_upload, upload_file}

-- All calls succeed.
pub record Smooth (f : Files) : Type 0 where
  pub stat_finds : f.stat_finds ≡ true
  pub opens_source : f.opens_source ≡ true
  pub opens_tmpfile : f.opens_tmpfile ≡ true
  pub reads : (n : ℕ) → f.reads n ≡ true
  pub writes : (n : ℕ) → f.writes n ≡ true

-- What the loop ends with: the copy, with its size.
record Copied (src tmp b : Bytes) (result : Disk × Option ℕ) : Type 0 where
  size : result.1 ≡ some (length b)
  copy : read result.0 tmp ≡ some b

last_chunk :
    (k : ℕ) (b : Bytes) → (length (take 4096 (drop k b)) == 0) ≡ true → k ≤ length b → k ≡ length b
last_chunk k b h inside =
    let none_left = (==_iff (length (take 4096 (drop k b))) 0).0 h in
    omega (arith, none_left, length-take 4096 (drop k b), length-drop k b)

next_chunk :
    (k : ℕ) (b : Bytes)
    → (length (take 4096 (drop k b)) == 0) ≡ false
    → (0 < length (take 4096 (drop k b))) × (k + length (take 4096 (drop k b)) ≤ length b)
next_chunk k b h =
    let size = length-take 4096 (drop k b) in
    let more : 0 < length (take 4096 (drop k b)) = positive (length (take 4096 (drop k b))) h in
    (more, omega (arith, more, size, length-drop k b))
  where
    positive : (n : ℕ) → n == 0 ≡ false → 0 < n
    positive n h = ground arith

module _ (f : Files) (smooth : Smooth f) (src tmp b : Bytes) (apart : str_eq tmp src ≡ false) where
  appended :
      (d : Disk) (k : ℕ) (chunk : Bytes)
      → read d src ≡ some b
      → read d tmp ≡ some (take k b)
      → chunk ≡ take 4096 (drop k b)
      → (read (write d tmp (contents d tmp ++ chunk)) src ≡ some b)
        × (read (write d tmp (contents d tmp ++ chunk)) tmp ≡ some (take (k + length chunk) b))
  appended d k chunk source so_far is =
      let all = contents d tmp ++ chunk in
      let same : all ≡ take (k + length chunk) b =
        ap (λ c. c ++ chunk) (contents-read d tmp (take k b) so_far)
        ∙ ap (λ c. take k b ++ c)
            (is
              ∙ sym (take-length-take 4096 (drop k b))
              ∙ ap (λ c. take (length c) (drop k b)) (sym is))
        ∙ take-drop k (length chunk) b in
      (
        rw (read-write d tmp src all, apart) source,
        rw (read-write d tmp tmp all, str_eq_self tmp) (ap some same),
      )

  tmp_loop-Copied :
      (fuel k : ℕ) (d : Disk)
      → read d src ≡ some b
      → read d tmp ≡ some (take k b)
      → k ≤ length b
      → length b - k < fuel
      → Copied src tmp b (tmp_loop f src tmp fuel d k)
  unfolding tmp_loop
  tmp_loop-Copied zero k d source so_far inside short = absurd (omega arith)
  tmp_loop-Copied (suc fuel) k d source so_far inside short =
      let chunk = take 4096 (drop k b) in
      elim (Bool-cases (length chunk == 0)) [
        | inl ended ↦
            let whole = last_chunk k b ended inside in
            rw (smooth.reads k, contents-read d src b source, ended)
              (record {
                size = ap some whole;
                copy = so_far ∙ ap some (take_all k b (omega arith));
              })
        | inr more ↦
            let (some_bytes, inside') = next_chunk k b more in
            let (source', so_far') = appended d k chunk source so_far refl in
            rw (smooth.reads k, contents-read d src b source, more, smooth.writes k)
              (tmp_loop-Copied fuel (k + length chunk) (write d tmp (contents d tmp ++ chunk))
                source' so_far' inside' (omega (arith, some_bytes, inside')))
      ]

  -- The exchange of the command, with the size of the file and the path of the copy, and the response.
  abbrev pub reply_to : Local → ℕ → ClientState × Bool
  reply_to l accepted =
      judged (exchange accepted l.client (command (upload l.client.username src (length b) tmp)))

  -- What the server finds, when every call succeeds: `meanwhile` starts from the disk with the copy.
  pub record Offered (l : Local) (meanwhile : Disk → Disk) (accepted : ℕ) : Type 0 where
    pub d : Disk
    pub sends : upload_file f meanwhile accepted l src ≡ (
      record {
        client = (reply_to l accepted).0;
        disk = if f.unlinks then remove (meanwhile d) tmp else meanwhile d;
      },
      (reply_to l accepted).1,
    )
    pub offered : read d tmp ≡ some b

all_open :
    (a b c : Bool) (x y : Local × Bool)
    → a ≡ true
    → b ≡ true
    → c ≡ true
    → (if not a then x else if not b then x else if not c then x else y) ≡ y
all_open a b c x y p q r = rw (p, q, r) refl

-- When every call up to the command succeeds, an upload sends the command with the size of the user's
-- file and the path of the temporary file, and ends with what the program makes of the response. The
-- server finds the temporary file with exactly the bytes of the user's file, and it is unlinked only
-- behind what the server does, where `unlink` succeeds. The two paths must differ.
pub upload_file-Offered :
    (f : Files) (smooth : Smooth f) (l : Local) (filename b : Bytes)
    (apart : str_eq (tmpfile filename f.now) filename ≡ false) (meanwhile : Disk → Disk)
    (accepted : ℕ)
    → read l.disk filename ≡ some b
    → Offered f smooth filename (tmpfile filename f.now) b apart l meanwhile accepted
unfolding upload_file
upload_file-Offered f smooth l filename b apart meanwhile accepted source =
    let tmp = tmpfile filename f.now in
    let fresh = write l.disk tmp [] in
    let made : read fresh tmp ≡ some [] = rw (read-write l.disk tmp tmp [], str_eq_self tmp) refl in
    let kept : read fresh filename ≡ some b =
      rw (read-write l.disk tmp filename [], apart) source in
    let same = contents-read l.disk filename b source in
    let copied =
      tmp_loop-Copied f smooth filename tmp b apart (length b + 1) 0 fresh kept made (omega arith)
        (omega arith) in
    let measured : (tmp_copy f l.disk filename tmp).1 ≡ some (length b) = rw same copied.size in
    record {
      d = (tmp_copy f l.disk filename tmp).0;
      sends =
          all_open f.stat_finds f.opens_source f.opens_tmpfile (l, false)
            (send_upload f meanwhile accepted l.client filename (tmp_copy f l.disk filename tmp))
            smooth.stat_finds smooth.opens_source smooth.opens_tmpfile
          ∙ ap
              (λ size.
                send_upload f meanwhile accepted l.client filename
                  ((tmp_copy f l.disk filename tmp).0, size))
              measured;
      offered = rw same copied.copy;
    }

send_upload-unlinks :
    (f : Files) (meanwhile : Disk → Disk) (accepted : ℕ) (client : ClientState) (filename : Bytes)
    (r : Disk × Option ℕ)
    → f.unlinks ≡ true
    → read (send_upload f meanwhile accepted client filename r).0.disk (tmpfile filename f.now)
      ≡ none
send_upload-unlinks f meanwhile accepted client filename (d, none) u =
    let tmp = tmpfile filename f.now in rw (u, read-remove d tmp tmp, str_eq_self tmp) refl
send_upload-unlinks f meanwhile accepted client filename (d, some size) u =
    let tmp = tmpfile filename f.now in
    rw (u, read-remove (meanwhile d) tmp tmp, str_eq_self tmp) refl
