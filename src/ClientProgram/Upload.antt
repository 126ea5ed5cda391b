-- ===== src/ClientProgram/Upload.antt =====
-- upload_file of src/client_program.c.
pub mod Copy
use os_lab.Prelude.{
  ℕ, zero, suc, ◌+◌, ◌-◌, Bool, true, false, not, List, [], ◌∷◌, ◌++◌, Option, none, some, Bytes,
  codes, snprintf, decimal, length, take, drop, ◌==◌, if◌then◌else◌,
}
use os_lab.Disk.{Disk, read, contents, write, remove}
use os_lab.Client.Command.{starts_with}
use os_lab.ClientProgram.Commands.{upload, command}
use os_lab.ClientProgram.Connection.{ClientState, send_command, exchange, judged}
use os_lab.ClientProgram.Download.{Local}

-- How the calls go. `reads` and `writes` are by the number of bytes copied before; a `write` that does
-- not go whole fails.
pub record Files : Type 0 where
  pub now : ℕ
  pub stat_finds : Bool
  pub opens_source : Bool
  pub opens_tmpfile : Bool
  pub reads : ℕ → Bool
  pub writes : ℕ → Bool
  pub unlinks : Bool

abbrev pub tmpfile : Bytes → ℕ → Bytes
tmpfile filename now = snprintf 256 (codes "/tmp/upload_" ++ filename ++ codes "_" ++ decimal now)

-- The loop: the disk, and the total size unless a write fails. A read that fails ends it as the end of
-- the file does. The fuel never runs out.
unfoldable pub tmp_loop : Files → (src tmp : Bytes) → ℕ → Disk → ℕ → Disk × Option ℕ
unfolding contents write
tmp_loop f src tmp zero d total_size = (d, none)
tmp_loop f src tmp (suc fuel) d total_size =
    let chunk = if f.reads total_size then take 4096 (drop total_size (contents d src)) else [] in
    let appended = write d tmp (contents d tmp ++ chunk) in
    let next = tmp_loop f src tmp fuel appended (total_size + length chunk) in
    if length chunk == 0
    then (d, some total_size)
    else if f.writes total_size
    then next
    else (d, none)

-- `open` with O_TRUNC, and the loop.
abbrev pub tmp_copy : Files → Disk → (src tmp : Bytes) → Disk × Option ℕ
tmp_copy f d src tmp = tmp_loop f src tmp (length (contents d src) + 1) (write d tmp []) 0

abbrev pub unlinked : Files → Disk → Bytes → Disk
unlinked f d tmp = if f.unlinks then remove d tmp else d

-- `meanwhile` is what the server does to the files until its response is read, or nothing.
abbrev pub send_upload :
    Files → (Disk → Disk) → ℕ → ClientState → (filename : Bytes) → Disk × Option ℕ → Local × Bool
send_upload f meanwhile accepted client filename (d, none) =
    (record { client = client; disk = unlinked f d (tmpfile filename f.now) }, false)
send_upload f meanwhile accepted client filename (d, some total_size) =
    let tmp = tmpfile filename f.now in
    let (after, ok) =
      judged
        (exchange accepted client (command (upload client.username filename total_size tmp))) in
    (record { client = after; disk = unlinked f (meanwhile d) tmp }, ok)

unfoldable pub upload_file : Files → (Disk → Disk) → ℕ → Local → (filename : Bytes) → Local × Bool
unfolding tmp_loop exchange command
upload_file f meanwhile accepted l filename =
    if not f.stat_finds
    then (l, false)
    else if not f.opens_source
    then (l, false)
    else if not f.opens_tmpfile
    then (l, false)
    else send_upload f meanwhile accepted l.client filename
        (tmp_copy f l.disk filename (tmpfile filename f.now))
