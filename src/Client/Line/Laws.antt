-- ===== src/Client/Line/Laws.antt =====
-- What recv_line of src/client.c takes from the stream and leaves in the buffer.
use os_lab.Prelude.{
  ℕ, zero, suc, ◌+◌, ◌-◌, ◌≤◌, ◌<◌, ◌≡◌, refl, ap, Bool, true, false, not, ◌&&◌, decimal, [], ◌∷◌,
  ◌++◌, Option, some, Bytes, length, length-append, length-drop, take, drop, take-append, All,
  arith, inl, inr, Bool-cases, ◌==◌,
}
use os_lab.Scan.{is_digit}
use os_lab.Scan.Numbers.{decimal-digits}
use os_lab.Client.Line.{Read, read_loop, filled, counted, recv_line, c_string}

-- No byte of the text is the given one.
abbrev pub Without : ℕ → Bytes → Type 0
Without x = All (λ b. b == x ≡ false)

-- How the loop ends: behind a newline, with the buffer full, or where the peer sends no more.
pub data Ending (room : ℕ) (stream : Bytes) (r : Read) : Type 0 where
  newline :
      r.ended ≡ true
      → stream ≡ r.received ++ b'\n' ∷ r.rest
      → length r.received < room
      → Ending room stream r
  full :
      r.ended ≡ true
      → stream ≡ r.received ++ r.rest
      → length r.received ≡ room
      → Ending room stream r
  closed :
      r.ended ≡ false
      → r.received ≡ stream
      → r.rest ≡ []
      → length stream < room
      → Ending room stream r

record Looped (room : ℕ) (stream : Bytes) (r : Read) : Type 0 where
  ending : Ending room stream r
  line : Without b'\n' r.received

put_Ending :
    (room c : ℕ) (stream : Bytes) (r : Read)
    → Ending room stream r
    → Ending (suc room) (c ∷ stream) (record r { received = c ∷ r.received })
put_Ending room c stream r (newline e same short) = newline e (ap (◌∷◌ c) same) (omega arith)
put_Ending room c stream r (full e same long) = full e (ap (◌∷◌ c) same) (omega arith)
put_Ending room c stream r (closed e same empty short) =
    closed e (ap (◌∷◌ c) same) empty (omega arith)

read_loop-Looped : (room : ℕ) (stream : Bytes) → Looped room stream (read_loop room stream)
unfolding read_loop
read_loop-Looped zero stream = record { ending = full refl refl refl; line = tt }
read_loop-Looped (suc room) [] = record { ending = closed refl refl refl (omega arith); line = tt }
read_loop-Looped (suc room) (c ∷ stream) = elim (Bool-cases (c == b'\n')) [
  | inl hit ↦
      let same : c ≡ b'\n' = ground arith in
      rw hit (record { ending = newline refl (ap (λ x. x ∷ stream) same) (omega arith); line = tt })
  | inr miss ↦
      let more = read_loop-Looped room stream in
      rw miss (record {
        ending = put_Ending room c stream (read_loop room stream) more.ending;
        line = (miss, more.line);
      })
]

-- The NUL behind the received bytes ends the string.
c_string-line : (line back : Bytes) → Without 0 line → c_string (line ++ 0 ∷ back) ≡ line
unfolding c_string
c_string-line [] back clear = refl
c_string-line (b ∷ line) back (first, clear) = rw first (ap (◌∷◌ b) (c_string-line line back clear))

pub c_string_whole : (text : Bytes) → Without 0 text → c_string text ≡ text
unfolding c_string
c_string_whole [] clear = refl
c_string_whole (b ∷ text) (first, clear) = rw first (ap (◌∷◌ b) (c_string_whole text clear))

Ending-fits :
    (room : ℕ) (stream : Bytes) (r : Read) → Ending room stream r → length r.received ≤ room
Ending-fits room stream r (newline e same short) = omega arith
Ending-fits room stream r (full e same long) = omega arith
Ending-fits room stream r (closed e same empty short) = rw same (omega arith)

length-filled :
    (buf : Bytes) (r : Read) → length r.received < length buf → length (filled buf r) ≡ length buf
length-filled buf r short = elim (Bool-cases r.ended) [
  | inl ended ↦ rw ended (
      omega (
        arith,
        length-append r.received (0 ∷ drop (length r.received + 1) buf),
        length-drop (length r.received + 1) buf,
      ))
  | inr cut ↦ rw cut (
      omega (
        arith,
        length-append r.received (drop (length r.received) buf),
        length-drop (length r.received) buf,
      ))
]

filled-string :
    (buf : Bytes) (r : Read)
    → r.ended ≡ true
    → Without 0 r.received
    → c_string (filled buf r) ≡ r.received
filled-string buf r ended clear =
    rw ended (c_string-line r.received (drop (length r.received + 1) buf) clear)

filled-prefix : (buf : Bytes) (r : Read) → take (length r.received) (filled buf r) ≡ r.received
filled-prefix buf r = elim (Bool-cases r.ended) [
  | inl ended ↦
      rw ended
        (take-append (length r.received) r.received (0 ∷ drop (length r.received + 1) buf) refl)
  | inr cut ↦
      rw cut (take-append (length r.received) r.received (drop (length r.received) buf) refl)
]

-- What a call leaves: the bytes of `line` at the front of the buffer, which keeps its length; all that
-- was not read still to come; and the line as a C string, where the loop wrote the NUL.
pub record Received (len : ℕ) (buf stream : Bytes) (result : Bytes × Option ℕ × Bytes)
    : Type 0 where
  pub read : Read
  pub ending : Ending (len - 1) stream read
  pub one_line : Without b'\n' read.received
  pub same_length : length result.0 ≡ length buf
  pub held : take (length read.received) result.0 ≡ read.received
  pub string : read.ended ≡ true → Without 0 read.received → c_string result.0 ≡ read.received
  pub returned : result.1 ≡ counted read.received read.ended
  pub left : result.2 ≡ read.rest

-- A call with a buffer of `len` bytes, at least one, reads up to the first newline, to the end of
-- the buffer, or to where the peer stops; it never writes outside the buffer, loses no byte of the
-- stream, and leaves the line in the buffer.
pub recv_line-Received :
    (len : ℕ) (buf stream : Bytes)
    → 0 < len
    → length buf ≡ len
    → Received len buf stream (recv_line len buf stream)
unfolding recv_line
recv_line-Received len buf stream room size =
    let r = read_loop (len - 1) stream in
    let looped = read_loop-Looped (len - 1) stream in
    let fits = Ending-fits (len - 1) stream r looped.ending in
    record {
      read = r;
      ending = looped.ending;
      one_line = looped.line;
      same_length = length-filled buf r (omega arith);
      held = filled-prefix buf r;
      string = filled-string buf r;
      returned = refl;
      left = refl;
    }

read_loop-line :
    (room : ℕ) (line rest : Bytes)
    → Without b'\n' line
    → length line < room
    → read_loop room (line ++ b'\n' ∷ rest) ≡ record { received = line; ended = true; rest = rest }
unfolding read_loop
read_loop-line zero line rest one short = absurd (omega arith)
read_loop-line (suc room) [] rest one short = refl
read_loop-line (suc room) (c ∷ line) rest (first, one) short =
    rw (first, read_loop-line room line rest one (omega arith))

-- A line that fits is read whole, and the next call goes on behind it.
pub recv_line-line :
    (len : ℕ) (buf line rest : Bytes)
    → Without b'\n' line
    → Without 0 line
    → length line + 1 < len
    → (c_string (recv_line len buf (line ++ b'\n' ∷ rest)).0 ≡ line)
      × ((recv_line len buf (line ++ b'\n' ∷ rest)).1 ≡ some (length line))
      × ((recv_line len buf (line ++ b'\n' ∷ rest)).2 ≡ rest)
unfolding recv_line
recv_line-line len buf line rest one clear short =
    let r : Read = record { received = line; ended = true; rest = rest } in
    let is = read_loop-line (len - 1) line rest one (omega arith) in
    rw is (filled-string buf r refl clear, counted-line line, refl)
  where
    counted-line : (line : Bytes) → counted line true ≡ some (length line)
    counted-line [] = refl
    counted-line (b ∷ line) = refl

-- A text of constants without a byte.
unfoldable pub lacks : ℕ → Bytes → Bool
lacks x [] = true
lacks x (b ∷ text) = not (b == x) && lacks x text

pub lacks-Without : (x : ℕ) (text : Bytes) → lacks x text ≡ true → Without x text
unfolding lacks
lacks-Without x [] h = tt
lacks-Without x (b ∷ text) h = (ground arith, lacks-Without x text (ground arith))

digits-Without :
    (x : ℕ) (digits : Bytes) → x < 48 → All (λ b. is_digit b ≡ true) digits → Without x digits
digits-Without x [] h all = tt
digits-Without x (d ∷ digits) h (first, all) = (ground arith, digits-Without x digits h all)

pub decimal-Without : (x n : ℕ) → x < 48 → Without x (decimal n)
decimal-Without x n h = digits-Without x (decimal n) h (decimal-digits n)
