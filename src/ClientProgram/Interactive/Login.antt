-- ===== src/ClientProgram/Interactive/Login.antt =====
-- What a whole session of src/client_program.c sends before the user is logged in.
use Prim.Native.String.{String}
use os_lab.Prelude.{
  ℕ, Bool, true, false, not, List, [], ◌∷◌, Option, none, some, Bytes, codes, str_eq, length, ltb,
  leb, ◌==◌, if◌then◌else◌,
}
use os_lab.Disk.{Disk}
use os_lab.Scan.{scan_words}
use os_lab.Client.Line.{c_string}
use os_lab.ClientProgram.Commands.{upload, download, command}
use os_lab.ClientProgram.Connection.{
  ClientState, send_command, receive_response, read_bytes, after_read, is_ok, exchange,
}
use os_lab.ClientProgram.Connection.Gate.{
  Gated, send_command-Gated, exchange-Gated, judged-Gated, sign_up-Gated, log_in-Gated,
  delete_file-Gated, list_files-Gated,
}
use os_lab.ClientProgram.Download.{
  Local, with_header, after_response, receive_file_data, download_file, scan_header,
}
use os_lab.ClientProgram.Upload.{Files, tmpfile, tmp_copy, send_upload, upload_file}
use os_lab.ClientProgram.Interactive.{
  Outcomes, Buffers, fill, run_command, chomp, handle_input, interactive_mode,
}

Kept : Local × Bool → Type 0
Kept r = Gated r.0.client

-- A property of both branches is one of the test.
either : {A : Type 0} (P : A → Type 0) (b : Bool) {x y : A} → P x → P y → P (if b then x else y)
either P true p q = p
either P false p q = q

with_header-Gated :
    (opens : Bool) (l : Local) (filename buffer : Bytes) (size : Option ℕ)
    → Gated l.client
    → Kept (with_header opens l filename buffer size)
unfolding Kept
with_header-Gated opens l filename buffer none gated = gated
with_header-Gated opens l filename buffer (some size) gated = either Kept opens gated gated

after_response-Gated :
    (opens : Bool) (d : Disk) (filename : Bytes) (r : ClientState × Option Bytes)
    → Gated r.0
    → Kept (after_response opens d filename r)
unfolding Kept
after_response-Gated opens d filename (client, none) gated = gated
after_response-Gated opens d filename (client, some response) gated =
    let buffer = read_bytes 1023 client in
    let next : Local = record { client = after_read 1023 client; disk = d } in
    either Kept (not (is_ok response)) gated (
      either Kept (length buffer == 0) gated
        (with_header-Gated opens next filename buffer (scan_header (c_string buffer)) gated))

receive_file_data-Gated :
    (opens : Bool) (l : Local) (filename : Bytes)
    → Gated l.client
    → Kept (receive_file_data opens l filename)
unfolding receive_file_data receive_response
receive_file_data-Gated opens l filename gated =
    after_response-Gated opens l.disk filename (receive_response l.client 1024) gated

download_file-Gated :
    (accepted : ℕ) (opens : Bool) (l : Local) (filename : Bytes)
    → Gated l.client
    → Kept (download_file accepted opens l filename)
unfolding download_file Kept
download_file-Gated accepted opens l filename gated =
    let text = command (download l.client.username filename) in
    let (client, sent) = send_command accepted l.client text in
    let sent_gated = send_command-Gated accepted l.client text gated in
    either Kept sent
      (receive_file_data-Gated opens (record l { client = client }) filename sent_gated) sent_gated

send_upload-Gated :
    (f : Files) (meanwhile : Disk → Disk) (accepted : ℕ) (client : ClientState) (filename : Bytes)
    (r : Disk × Option ℕ)
    → Gated client
    → Kept (send_upload f meanwhile accepted client filename r)
unfolding Kept
send_upload-Gated f meanwhile accepted client filename (d, none) gated = gated
send_upload-Gated f meanwhile accepted client filename (d, some total_size) gated =
    let text = command (upload client.username filename total_size (tmpfile filename f.now)) in
    judged-Gated (exchange accepted client text) (exchange-Gated accepted client text gated)

upload_file-Gated :
    (f : Files) (meanwhile : Disk → Disk) (accepted : ℕ) (l : Local) (filename : Bytes)
    → Gated l.client
    → Kept (upload_file f meanwhile accepted l filename)
unfolding upload_file Kept
upload_file-Gated f meanwhile accepted l filename gated = either Kept (not f.stat_finds) gated (
    either Kept (not f.opens_source) gated (
      either Kept (not f.opens_tmpfile) gated (
        send_upload-Gated f meanwhile accepted l.client filename
          (tmp_copy f l.disk filename (tmpfile filename f.now)) gated)))

Safe : Local → Type 0
Safe l = Gated l.client

run_command-Gated :
    (c : Outcomes) (l : Local) (b : Buffers) (parsed : ℕ)
    → Gated l.client
    → Kept (run_command c l b parsed)
unfolding Kept Safe
run_command-Gated c l b parsed gated =
    let n = c.accepted in
    let priority = some (if leb 4 parsed then b.arg3 else codes "NORMAL") in
    let name = λ (text : String). str_eq b.command (codes text) in
    either Kept (name "quit") (send_command-Gated n l.client (codes "QUIT\n") gated) (
      either Kept (name "signup")
        (either Safe (ltb parsed 3) gated (sign_up-Gated n l.client gated b.arg1 b.arg2 priority))
        (either Kept (name "login")
          (either Safe (ltb parsed 3) gated (log_in-Gated n l.client gated b.arg1 b.arg2))
          (either Kept (name "upload")
            (either Safe (ltb parsed 2) gated
              (upload_file-Gated c.files c.meanwhile n l b.arg1 gated))
            (either Kept (name "download")
              (either Safe (ltb parsed 2) gated
                (download_file-Gated n c.opens_output l b.arg1 gated))
              (either Kept (name "delete")
                (either Safe (ltb parsed 2) gated (delete_file-Gated n l.client gated b.arg1))
                (either Kept (name "list") (list_files-Gated n l.client gated) gated))))))

handle_input-Gated :
    (c : Outcomes) (l : Local) (b : Buffers) (input : Bytes)
    → Gated l.client
    → Gated (handle_input c l b input).0.client
unfolding handle_input Kept
handle_input-Gated c l b input gated =
    let words = (scan_words (63 ∷ 255 ∷ 255 ∷ 255 ∷ []) (chomp input)).0 in
    either (λ (r : Local × Buffers × Bool). Gated r.0.client) (length (chomp input) == 0) gated
      (run_command-Gated c l (fill b words) (length words) gated)

-- Whatever is typed, and however the server answers and the calls go, a session keeps this: as
-- long as the program is not logged in, it has sent the server only commands that begin with
-- SIGNUP or LOGIN.
pub interactive_mode-Gated :
    (inputs : List (Outcomes × Bytes)) (l : Local) (b : Buffers)
    → Gated l.client
    → Gated (interactive_mode inputs l b).client
unfolding interactive_mode Safe
interactive_mode-Gated [] l b gated = gated
interactive_mode-Gated ((c, input) ∷ inputs) l b gated =
    let (after, filled, ends) = handle_input c l b input in
    let next = handle_input-Gated c l b input gated in
    either Safe ends next (interactive_mode-Gated inputs after filled next)
