-- ===== src/ClientProgram/Program.antt =====
-- connect_to_server, cleanup_client and main of src/client_program.c.
pub mod Laws
use os_lab.Prelude.{
  ℕ, Bool, true, false, not, List, [], ◌∷◌, ◌++◌, Option, none, some, Bytes, codes, ℤ, pos, uint16,
  if◌then◌else◌,
}
use os_lab.Disk.{Disk}
use os_lab.ClientProgram.Connection.{ClientState}
use os_lab.ClientProgram.Download.{Local}
use os_lab.ClientProgram.Interactive.{Outcomes, Buffers, interactive_mode}

-- How the calls go: the descriptor that `socket` gives, whether `inet_pton` reads the host as an address,
-- and whether `connect` succeeds; `atoi`, and what the server sends over the connection.
pub record Network : Type 0 where
  pub socket : Option ℕ
  pub is_address : Bytes → Bool
  pub connects : (host : Bytes) → (port : ℕ) → Bool
  pub atoi : Bytes → ℤ
  pub stream : Bytes
  pub sizes : List ℕ

-- A socket that was made, one that is closed.
pub data SocketCall : Type 0 where
  opens : ℕ → SocketCall
  closes : ℕ → SocketCall

abbrev close_failed : ℕ → List SocketCall × Option ℕ
close_failed fd = (opens fd ∷ closes fd ∷ [], none)

abbrev connect_from : Network → Bytes → ℤ → Option ℕ → List SocketCall × Option ℕ
connect_from n host port none = ([], none)
connect_from n host port (some fd) =
    if not (n.is_address host)
    then close_failed fd
    else if n.connects host (uint16 port)
    then (opens fd ∷ [], some fd)
    else close_failed fd

-- The calls for sockets, and the descriptor, or `none` for -1.
unfoldable pub connect_to_server : Network → Bytes → ℤ → List SocketCall × Option ℕ
connect_to_server n host port = connect_from n host port n.socket

-- `client->socket_fd`, which is never negative here.
abbrev cleanup_client : ℕ → List SocketCall
cleanup_client socket_fd = closes socket_fd ∷ []

-- The arguments behind the program's name.
abbrev pub host_of : List Bytes → Bytes
host_of [] = codes "127.0.0.1"
host_of (host ∷ arguments) = host

abbrev pub port_of : Network → List Bytes → ℤ
port_of n (host ∷ port ∷ arguments) = n.atoi port
port_of n _ = pos 9090

abbrev pub new_client : Network → ClientState
new_client n = record {
  username = [];
  logged_in = false;
  sent = [];
  stream = n.stream;
  sizes = n.sizes;
}

-- What a run comes to: the calls for sockets, the exit status, and the files and the client's state at
-- the end, if there was a session.
pub record Run : Type 0 where
  pub calls : List SocketCall
  pub status : ℕ
  pub disk : Disk
  pub session : Option ClientState

abbrev run_session :
    Network → Disk → List (Outcomes × Bytes) → Buffers → List SocketCall × Option ℕ → Run
run_session n d inputs b (calls, none) = record {
  calls = calls;
  status = 1;
  disk = d;
  session = none;
}
run_session n d inputs b (calls, some sockfd) =
    let l = interactive_mode inputs (record { client = new_client n; disk = d }) b in
    record {
      calls = calls ++ cleanup_client sockfd;
      status = 0;
      disk = l.disk;
      session = some l.client;
    }

-- `inputs` is what is typed, and `b` what the buffers of `interactive_mode` hold at first.
unfoldable pub main : Network → List Bytes → Disk → List (Outcomes × Bytes) → Buffers → Run
unfolding connect_to_server interactive_mode
main n arguments d inputs b =
    run_session n d inputs b (connect_to_server n (host_of arguments) (port_of n arguments))
