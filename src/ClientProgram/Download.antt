-- ===== src/ClientProgram/Download.antt =====
-- download_file and receive_file_data of src/client_program.c.
pub mod Loop
pub mod Receive
use os_lab.Prelude.{
  ℕ, zero, suc, ◌+◌, ◌-◌, Bool, true, false, not, List, [], ◌∷◌, ◌++◌, Option, none, some, Bytes,
  codes, snprintf, length, take, drop, ltb, leb, ◌==◌, if◌then◌else◌,
}
use os_lab.Disk.{Disk, write}
use os_lab.Scan.{scan_words, scan_long}
use os_lab.Client.Command.{starts_with}
use os_lab.Client.Line.{c_string}
use os_lab.ClientProgram.Commands.{download, command}
use os_lab.ClientProgram.Connection.{
  ClientState, read_bytes, after_read, receive_response, send_command, is_ok, read_size, later,
}

-- What follows the words of the header: the size, where the name of the file was matched.
abbrev pub size_in : List Bytes × Bytes → Option ℕ
size_in ([], rest) = none
size_in (name ∷ names, rest) = scan_long rest

-- `FILE_DATA %255s %ld`
unfoldable pub scan_header : Bytes → Option ℕ
unfolding starts_with
scan_header text =
    if starts_with text (codes "FILE_DATA")
    then size_in (scan_words (255 ∷ []) (drop 9 text))
    else none

-- The loop over `recv`: whether it gets all that remains, what it writes to the output file, and what is
-- left. The result of the writes is not looked at in the source; they go whole here.
unfoldable pub receive_loop :
    List ℕ → (stream : Bytes) → (remaining_bytes : ℕ) → Bytes → List ℕ × Bytes × Bytes × Bool
receive_loop sizes stream zero out = (sizes, stream, out, true)
receive_loop [] stream (suc remaining) out = ([], stream, out, false)
receive_loop (size ∷ sizes) stream (suc remaining) out =
    let to_read = if ltb 8192 (suc remaining) then 8192 else suc remaining in
    let got = take (if ltb size to_read then size else to_read) stream in
    let more =
      receive_loop sizes (drop (length got) stream) (suc remaining - length got) (out ++ got) in
    if length got == 0 then (sizes, stream, out, false) else more

abbrev pub output_filename : Bytes → Bytes
output_filename filename = snprintf 512 (codes "downloaded_" ++ filename)

-- The client with its files.
pub record Local : Type 0 where
  pub client : ClientState
  pub disk : Disk

-- What the loop leaves: the output file is at `path`.
abbrev pub received : Local → Bytes → List ℕ × Bytes × Bytes × Bool → Local × Bool
received l path (sizes, stream, out, done) = (
  record l {
    client = record l.client { stream = stream; sizes = sizes };
    disk = write l.disk path out;
  },
  done,
)

-- The data of a file whose header was read in `buffer`. The bytes of the buffer behind its first NUL
-- are taken for file data; a number below zero that is left over ends the loop as 0 does.
abbrev pub receive_data : Local → (filename buffer : Bytes) → ℕ → Local × Bool
receive_data l filename buffer file_size =
    let first = drop (length (c_string buffer)) buffer in
    received l (output_filename filename)
      (receive_loop l.client.sizes l.client.stream (file_size - length first) first)

-- `opens` says whether the output file can be opened.
abbrev pub with_header : Bool → Local → (filename buffer : Bytes) → Option ℕ → Local × Bool
with_header opens l filename buffer none = (l, false)
with_header opens l filename buffer (some file_size) =
    if opens then receive_data l filename buffer file_size else (l, false)

-- The header is read by the next `recv`.
abbrev pub after_response : Bool → Disk → Bytes → ClientState × Option Bytes → Local × Bool
after_response opens d filename (client, none) = (record { client = client; disk = d }, false)
after_response opens d filename (client, some response) =
    let buffer = read_bytes 1023 client in
    let next : Local = record { client = after_read 1023 client; disk = d } in
    if not (is_ok response)
    then (record { client = client; disk = d }, false)
    else if length buffer == 0
    then (next, false)
    else with_header opens next filename buffer (scan_header (c_string buffer))

unfoldable pub receive_file_data : Bool → Local → (filename : Bytes) → Local × Bool
unfolding receive_response receive_loop scan_header
receive_file_data opens l filename =
    after_response opens l.disk filename (receive_response l.client 1024)

unfoldable pub download_file : ℕ → Bool → Local → (filename : Bytes) → Local × Bool
unfolding send_command command receive_file_data
download_file accepted opens l filename =
    let (client, sent) =
      send_command accepted l.client (command (download l.client.username filename)) in
    let next : Local = record l { client = client } in
    if sent then receive_file_data opens next filename else (next, false)
