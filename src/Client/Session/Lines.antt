-- ===== src/Client/Session/Lines.antt =====
-- The order of work of client_thread_main of src/client.c on the lines of a connection.
use os_lab.Prelude.{◌+◌, ◌<◌, false, List, [], ◌∷◌, ◌++◌, Bytes, ℤ, length}
use os_lab.Task.{ClientInfo}
use os_lab.Responses.{Response}
use os_lab.Client.Line.Laws.{Without}
use os_lab.Client.Session.{Around, handle_line, Served, over, and_then}

-- A line that recv_line takes as one: some bytes, without a newline and NUL, that fit in its buffer.
pub record IsWhole (line : Bytes) : Type 0 where
  pub given : 0 < length line
  pub one : Without b'\n' line
  pub clear : Without 0 line
  pub short : length line + 1 < 512

-- What the peer sends for lines, and then closes the connection.
abbrev pub sent_lines : List Bytes → Bytes
sent_lines [] = []
sent_lines (line ∷ lines) = line ++ b'\n' ∷ sent_lines lines

module _ (cmp : Response → Response → ℤ) where
  -- Each line handled by itself, the next one only where the loop goes on.
  pub handle_lines : List Around → ClientInfo → List Bytes → Served cmp
  handle_lines [] client lines = record { turns = []; ended = false }
  handle_lines (a ∷ arounds) client [] = over cmp []
  handle_lines (a ∷ arounds) client (line ∷ lines) =
      and_then cmp (handle_line cmp a client line) (handle_lines arounds client lines)
