-- ===== src/ClientProgram/Interactive.antt =====
-- interactive_mode of src/client_program.c.
pub mod Login
use os_lab.Prelude.{
  ℕ, zero, suc, ◌-◌, Bool, true, false, List, [], ◌∷◌, Option, none, some, Bytes, codes, str_eq,
  length, take, drop, leb, ltb, ◌==◌, if◌then◌else◌,
}
use os_lab.Disk.{Disk}
use os_lab.Scan.{scan_words}
use os_lab.ClientProgram.Connection.{
  ClientState, send_command, sign_up, log_in, delete_file, list_files,
}
use os_lab.ClientProgram.Download.{Local, download_file}
use os_lab.ClientProgram.Upload.{Files, upload_file}

-- How the calls go while one line is handled.
pub record Outcomes : Type 0 where
  pub accepted : ℕ
  pub opens_output : Bool
  pub files : Files
  pub meanwhile : Disk → Disk

-- The strings in the buffers `command`, `arg1`, `arg2` and `arg3`, which keep theirs where a line has
-- fewer words.
pub record Buffers : Type 0 where
  pub command : Bytes
  pub arg1 : Bytes
  pub arg2 : Bytes
  pub arg3 : Bytes

abbrev pub stored : Bytes → List Bytes → Bytes × List Bytes
stored old [] = (old, [])
stored old (w ∷ words) = (w, words)

abbrev pub fill : Buffers → List Bytes → Buffers
fill b words =
    let (command, w1) = stored b.command words in
    let (arg1, w2) = stored b.arg1 w1 in
    let (arg2, w3) = stored b.arg2 w2 in
    let (arg3, _) = stored b.arg3 w3 in
    record { command = command; arg1 = arg1; arg2 = arg2; arg3 = arg3 }

abbrev pub with_client : Local → ClientState × Bool → Local
with_client l (client, ok) = record l { client = client }

-- The command of a line, and whether it ends the loop. `parsed` is what `sscanf` returns, 0 where it
-- returns EOF.
abbrev pub run_command : Outcomes → Local → Buffers → (parsed : ℕ) → Local × Bool
run_command c l b parsed =
    if str_eq b.command (codes "quit")
    then (with_client l (send_command c.accepted l.client (codes "QUIT\n")), true)
    else if str_eq b.command (codes "signup")
    then (
      if ltb parsed 3
          then l
          else with_client l (
              sign_up c.accepted l.client b.arg1 b.arg2
                (some (if leb 4 parsed then b.arg3 else codes "NORMAL"))),
      false,
    )
    else if str_eq b.command (codes "login")
    then (
      if ltb parsed 3 then l else with_client l (log_in c.accepted l.client b.arg1 b.arg2),
      false,
    )
    else if str_eq b.command (codes "upload")
    then (
      if ltb parsed 2 then l else (upload_file c.files c.meanwhile c.accepted l b.arg1).0,
      false,
    )
    else if str_eq b.command (codes "download")
    then (if ltb parsed 2 then l else (download_file c.accepted c.opens_output l b.arg1).0, false)
    else if str_eq b.command (codes "delete")
    then (if ltb parsed 2 then l else with_client l (delete_file c.accepted l.client b.arg1), false)
    else if str_eq b.command (codes "list")
    then (with_client l (list_files c.accepted l.client), false)
    else (l, false)

-- `input[strcspn(input, "\n")] = '\0'`
abbrev pub chomp : Bytes → Bytes
chomp [] = []
chomp (b ∷ input) = if b == b'\n' then [] else b ∷ chomp input

-- One line that `fgets` gave; an empty one is passed over.
unfoldable pub handle_input : Outcomes → Local → Buffers → Bytes → Local × Buffers × Bool
unfolding sign_up log_in delete_file list_files upload_file download_file send_command scan_words
handle_input c l b input =
    let words = (scan_words (63 ∷ 255 ∷ 255 ∷ 255 ∷ []) (chomp input)).0 in
    let (after, ends) = run_command c l (fill b words) (length words) in
    if length (chomp input) == 0 then (l, b, false) else (after, fill b words, ends)

-- The loop, over the lines that `fgets` gives until the end of the input, each with how the calls go.
unfoldable pub interactive_mode : List (Outcomes × Bytes) → Local → Buffers → Local
unfolding handle_input
interactive_mode [] l b = l
interactive_mode ((c, input) ∷ inputs) l b =
    let (after, filled, ends) = handle_input c l b input in
    let more = interactive_mode inputs after filled in if ends then after else more
