-- ===== src/Client/Line.antt =====
-- recv_line of src/client.c.
pub mod Laws
use os_lab.Prelude.{
  ℕ, zero, suc, ◌+◌, ◌-◌, Bool, true, false, List, [], ◌∷◌, ◌++◌, Option, none, some, Bytes, length,
  take, drop, ◌==◌, if◌then◌else◌,
}

-- `received` are the bytes that the loop put into the buffer; `ended` says that it met a newline or
-- the end of the buffer, and then writes the NUL; `rest` is what the peer sends and was not read.
pub record Read : Type 0 where
  pub received : Bytes
  pub ended : Bool
  pub rest : Bytes

abbrev put : ℕ → Read → Read
put c r = record r { received = c ∷ r.received }

-- The loop, with room for `room` more bytes. `stream` is all that the peer still sends.
pub read_loop : ℕ → Bytes → Read
read_loop zero stream = record { received = []; ended = true; rest = stream }
read_loop (suc room) [] = record { received = []; ended = false; rest = [] }
read_loop (suc room) (c ∷ stream) =
    let more = put c (read_loop room stream) in
    if c == b'\n' then record { received = []; ended = true; rest = stream } else more

-- The buffer behind the call.
abbrev pub filled : Bytes → Read → Bytes
filled buf r =
    if r.ended
    then r.received ++ 0 ∷ drop (length r.received + 1) buf
    else r.received ++ drop (length r.received) buf

-- What the call returns: -1, as `none`, or a number of bytes.
abbrev pub counted : Bytes → Bool → Option ℕ
counted [] false = none
counted [] true = some 0
counted (b ∷ received) ended = some (length (b ∷ received))

-- The buffer, the result, and what is left of the stream.
unfoldable pub recv_line : (len : ℕ) → (buf stream : Bytes) → Bytes × Option ℕ × Bytes
unfolding read_loop
recv_line len buf stream =
    let r = read_loop (len - 1) stream in (filled buf r, counted r.received r.ended, r.rest)

-- The C string that a buffer holds.
pub c_string : Bytes → Bytes
c_string [] = []
c_string (b ∷ buf) = let rest = c_string buf in if b == 0 then [] else b ∷ rest
