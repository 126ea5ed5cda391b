-- ===== src/ClientProgram/Commands.antt =====
-- The lines that src/client_program.c sends to the server.
pub mod RoundTrip
use os_lab.Prelude.{
  ℕ, Bool, List, [], ◌∷◌, ◌++◌, Option, none, some, Bytes, codes, snprintf, decimal,
}

-- What a user asks for, with the user's name where the program has it from the login.
pub data Request : Type 0 where
  signup : (username password : Bytes) → (priority : Option Bytes) → Request
  login : (username password : Bytes) → Request
  upload : (username filename : Bytes) → (total_size : ℕ) → (tmpfile : Bytes) → Request
  download : (username filename : Bytes) → Request
  delete : (username filename : Bytes) → Request
  list : (username : Bytes) → Request

-- `priority && strlen(priority) > 0`, or the default.
abbrev pub given : Option Bytes → Bytes
given none = codes "NORMAL"
given (some []) = codes "NORMAL"
given (some (b ∷ priority)) = b ∷ priority

-- The formats of the `snprintf` calls.
abbrev pub text : Request → Bytes
text (signup username password priority) =
    codes "SIGNUP "
    ++ username
    ++ codes " "
    ++ password
    ++ codes " "
    ++ given priority
    ++ codes "\n"
text (login username password) = codes "LOGIN " ++ username ++ codes " " ++ password ++ codes "\n"
text (upload username filename total_size tmpfile) =
    codes "UPLOAD "
    ++ username
    ++ codes " "
    ++ filename
    ++ codes " "
    ++ decimal total_size
    ++ codes " "
    ++ tmpfile
    ++ codes "\n"
text (download username filename) =
    codes "DOWNLOAD " ++ username ++ codes " " ++ filename ++ codes "\n"
text (delete username filename) = codes "DELETE " ++ username ++ codes " " ++ filename ++ codes "\n"
text (list username) = codes "LIST " ++ username ++ codes "\n"

-- The sizes of the buffers `command`.
abbrev pub command_size : Request → ℕ
command_size (upload _ _ _ _) = 512
command_size (download _ _) = 512
command_size _ = 256

unfoldable pub command : Request → Bytes
unfolding decimal
command r = snprintf (command_size r) (text r)
