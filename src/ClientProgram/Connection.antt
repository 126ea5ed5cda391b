-- ===== src/ClientProgram/Connection.antt =====
-- The connection of src/client_program.c: send_command and receive_response, and the commands that
-- send one line and take one response.
pub mod Gate
pub mod Replies
use os_lab.Prelude.{
  ℕ, suc, ◌-◌, Bool, true, false, not, ◌&&◌, List, [], ◌∷◌, Option, none, some, Bytes, codes,
  strncpy, length, take, drop, ltb, leb, ◌==◌, if◌then◌else◌,
}
use os_lab.Client.Command.{starts_with}
use os_lab.ClientProgram.Commands.{Request, signup, login, delete, list, command}

-- A command given to `write`, and how many bytes it took.
pub record Sent : Type 0 where
  pub command : Bytes
  pub accepted : ℕ

-- The client's state with its socket. `stream` is all that the server still sends. The next calls of
-- `read` and `recv` get no more bytes than `sizes` says, one size for each call; where the bytes or the
-- sizes are at an end the call gets none, as with a closed connection or an error. `sent` lists what
-- was sent, the last first.
pub record ClientState : Type 0 where
  pub username : Bytes
  pub logged_in : Bool
  pub sent : List Sent
  pub stream : Bytes
  pub sizes : List ℕ

-- One `read` of at most `limit` bytes.
abbrev pub read_size : ℕ → List ℕ → ℕ
read_size limit [] = 0
read_size limit (size ∷ sizes) = if ltb size limit then size else limit

abbrev pub later : List ℕ → List ℕ
later [] = []
later (size ∷ sizes) = sizes

abbrev pub after_read : ℕ → ClientState → ClientState
after_read limit client = record client {
  stream = drop (read_size limit client.sizes) client.stream;
  sizes = later client.sizes;
}

abbrev pub read_bytes : ℕ → ClientState → Bytes
read_bytes limit client = take (read_size limit client.sizes) client.stream

abbrev pub may_send : ClientState → Bytes → Bool
may_send client text =
    if client.logged_in
    then true
    else if starts_with text (codes "SIGNUP")
    then true
    else starts_with text (codes "LOGIN")

-- `accepted` is what `write` takes of the command.
unfoldable pub send_command : ℕ → ClientState → Bytes → ClientState × Bool
unfolding starts_with
send_command accepted client text =
    let one : Sent = record { command = text; accepted = accepted } in
    if may_send client text
    then (record client { sent = one ∷ client.sent }, accepted == length text)
    else (client, false)

abbrev pub some_bytes : Bytes → Option Bytes
some_bytes [] = none
some_bytes (b ∷ bytes) = some (b ∷ bytes)

unfoldable pub receive_response : ClientState → ℕ → ClientState × Option Bytes
receive_response client response_size =
    (after_read (response_size - 1) client, some_bytes (read_bytes (response_size - 1) client))

-- `strncmp(response, "OK", 2) == 0`
abbrev pub is_ok : Bytes → Bool
is_ok response = starts_with response (codes "OK")

abbrev pub receive_if_sent : ClientState × Bool → ClientState × Option Bytes
receive_if_sent (client, false) = (client, none)
receive_if_sent (client, true) = receive_response client 1024

-- A command is sent, and its response taken.
unfoldable pub exchange : ℕ → ClientState → Bytes → ClientState × Option Bytes
unfolding send_command receive_response
exchange accepted client text = receive_if_sent (send_command accepted client text)

abbrev pub logged : Bytes → ClientState × Option Bytes → ClientState × Bool
logged username (client, none) = (client, false)
logged username (client, some response) =
    if is_ok response
    then (record client { username = strncpy 64 username; logged_in = true }, true)
    else (client, false)

abbrev pub judged : ClientState × Option Bytes → ClientState × Bool
judged (client, none) = (client, false)
judged (client, some response) = (client, is_ok response)

-- `signup` of the source. A priority that is absent or empty is NORMAL.
unfoldable pub sign_up :
    ℕ → ClientState → (username password : Bytes) → (priority : Option Bytes) → ClientState × Bool
unfolding exchange command
sign_up accepted client username password priority =
    logged username (exchange accepted client (command (signup username password priority)))

-- `login` of the source.
unfoldable pub log_in : ℕ → ClientState → (username password : Bytes) → ClientState × Bool
unfolding exchange command
log_in accepted client username password =
    logged username (exchange accepted client (command (login username password)))

unfoldable pub delete_file : ℕ → ClientState → (filename : Bytes) → ClientState × Bool
unfolding exchange command
delete_file accepted client filename =
    judged (exchange accepted client (command (delete client.username filename)))

unfoldable pub list_files : ℕ → ClientState → ClientState × Bool
unfolding exchange command
list_files accepted client = judged (exchange accepted client (command (list client.username)))
