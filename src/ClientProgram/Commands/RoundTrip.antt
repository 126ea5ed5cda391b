-- ===== src/ClientProgram/Commands/RoundTrip.antt =====
-- The server reads the commands of src/client_program.c as they were meant: recv_line and the parser
-- of src/client.c give the task back that the request stands for.
use mathlib.Core.List.{append_assoc}
use os_lab.Prelude.{
  ℕ, ◌+◌, ◌-◌, ◌≤◌, ◌<◌, ◌≡◌, refl, ap, ◌∙◌, true, false, List, [], ◌∷◌, ◌++◌, Bytes, codes,
  decimal, length, length-append, take_all, All, All-append, arith, ◌==◌,
}
use os_lab.Priority.{normal, low, high}
use os_lab.Task.{Task}
use os_lab.Task as Task
use os_lab.Scan.{is_white, size_max}
use os_lab.Scan.Words.{IsWord, spaced, All-spaced, scan_words-spaced}
use os_lab.Scan.Numbers.{scan_size-decimal}
use os_lab.Client.Line.{recv_line, c_string}
use os_lab.Client.Line.Laws.{Without, lacks, lacks-Without, decimal-Without, recv_line-line}
use os_lab.Client.Command.{parse, starts_with, pushes, named_priority}
use os_lab.ClientProgram.Commands.{
  Request, signup, login, upload, download, delete, list, given, text, command_size, command,
}

-- The words behind the name of the command.
abbrev pub words : Request → List Bytes
words (signup u p q) = u ∷ p ∷ given q ∷ []
words (login u p) = u ∷ p ∷ []
words (upload u f n t) = u ∷ f ∷ decimal n ∷ t ∷ []
words (download u f) = u ∷ f ∷ []
words (delete u f) = u ∷ f ∷ []
words (list u) = u ∷ []

abbrev name : Request → Bytes
name (signup u p q) = codes "SIGNUP"
name (login u p) = codes "LOGIN"
name (upload u f n t) = codes "UPLOAD"
name (download u f) = codes "DOWNLOAD"
name (delete u f) = codes "DELETE"
name (list u) = codes "LIST"

-- The line without its newline.
abbrev line : Request → Bytes
line r = name r ++ spaced (words r) []

text-line : (r : Request) → text r ≡ line r ++ codes "\n"
text-line (signup u p q) = simp append_assoc
text-line (login u p) = simp append_assoc
text-line (upload u f n t) = simp append_assoc
text-line (download u f) = simp append_assoc
text-line (delete u f) = simp append_assoc
text-line (list u) = simp append_assoc

-- Words that the server's directives take whole, and a size that fits in a `size_t`.
abbrev pub IsPlain : Request → Type 0
IsPlain (signup u p q) = IsWord 63 u × IsWord 63 p × IsWord 15 (given q)
IsPlain (login u p) = IsWord 63 u × IsWord 63 p
IsPlain (upload u f n t) = IsWord 63 u × IsWord 255 f × (n ≤ size_max) × IsWord 255 t
IsPlain (download u f) = IsWord 63 u × IsWord 255 f
IsPlain (delete u f) = IsWord 63 u × IsWord 255 f
IsPlain (list u) = IsWord 63 u

-- What the server is to make of a request, from the task that it has created for the line.
abbrev pub meant : Request → Task → Task
meant (signup u p q) t = record t {
  type = Task.signup;
  username = u;
  password = p;
  priority = named_priority (given q);
}
meant (login u p) t = record t { type = Task.login; username = u; password = p; priority = high }
meant (upload u f n s) t = record t {
  type = Task.upload;
  username = u;
  path = f;
  size = n;
  tmpfile = s;
  priority = normal;
}
meant (download u f) t = record t {
  type = Task.download;
  username = u;
  path = f;
  priority = normal;
}
meant (delete u f) t = record t { type = Task.delete; username = u; path = f; priority = high }
meant (list u) t = record t { type = Task.list; username = u; priority = low }

parse-line : (r : Request) (t : Task) → IsPlain r → parse t (line r) ≡ pushes (meant r t)
unfolding parse starts_with
parse-line (signup u p q) t (pu, pp, pq) =
    rw (scan_words-spaced (63 ∷ 63 ∷ 15 ∷ []) (u ∷ p ∷ given q ∷ []) [] (pu, (pp, (pq, tt))) tt)
      refl
parse-line (login u p) t (pu, pp) =
    rw (scan_words-spaced (63 ∷ 63 ∷ []) (u ∷ p ∷ []) [] (pu, (pp, tt)) tt) refl
parse-line (upload u f n s) t (pu, pf, fits, ps) =
    let named =
      scan_words-spaced (63 ∷ 255 ∷ []) (u ∷ f ∷ []) (spaced (decimal n ∷ s ∷ []) []) (pu, (pf, tt))
        refl in
    let sized = scan_size-decimal n (spaced (s ∷ []) []) fits refl in
    let last = scan_words-spaced (255 ∷ []) (s ∷ []) [] (ps, tt) tt in
    rw named (rw sized (rw last refl))
parse-line (download u f) t (pu, pf) =
    rw (scan_words-spaced (63 ∷ 255 ∷ []) (u ∷ f ∷ []) [] (pu, (pf, tt)) tt) refl
parse-line (delete u f) t (pu, pf) =
    rw (scan_words-spaced (63 ∷ 255 ∷ []) (u ∷ f ∷ []) [] (pu, (pf, tt)) tt) refl
parse-line (list u) t pu = rw (scan_words-spaced (63 ∷ []) (u ∷ []) [] (pu, tt) tt) refl

solid : (width : ℕ) (word : Bytes) → IsWord width word → Without b'\n' word
solid width (b ∷ word) (fits, clear) = visible (b ∷ word) clear
  where
    visible : (word : Bytes) → All (λ c. is_white c ≡ false) word → Without b'\n' word
    visible [] clear = tt
    visible (c ∷ word) (first, clear) = (different c first, visible word clear)
      where
        different : (c : ℕ) → is_white c ≡ false → c == b'\n' ≡ false
        different c h = ground arith
solid width [] h = elim h [ ]

words-Without : (r : Request) → IsPlain r → All (Without b'\n') (words r)
words-Without (signup u p q) (pu, pp, pq) =
    (solid 63 u pu, (solid 63 p pp, (solid 15 (given q) pq, tt)))
words-Without (login u p) (pu, pp) = (solid 63 u pu, (solid 63 p pp, tt))
words-Without (upload u f n t) (pu, pf, fits, pt) =
    (solid 63 u pu, (solid 255 f pf, (decimal-Without b'\n' n (omega arith), (solid 255 t pt, tt))))
words-Without (download u f) (pu, pf) = (solid 63 u pu, (solid 255 f pf, tt))
words-Without (delete u f) (pu, pf) = (solid 63 u pu, (solid 255 f pf, tt))
words-Without (list u) pu = (solid 63 u pu, tt)

name-lacks : (x : ℕ) (r : Request) → x < 32 → lacks x (name r) ≡ true
unfolding lacks
name-lacks x (signup u p q) small = ground arith
name-lacks x (login u p) small = ground arith
name-lacks x (upload u f n t) small = ground arith
name-lacks x (download u f) small = ground arith
name-lacks x (delete u f) small = ground arith
name-lacks x (list u) small = ground arith

line-Without : (x : ℕ) (r : Request) → x < 32 → All (Without x) (words r) → Without x (line r)
line-Without x r small all =
    All-append (λ b. b == x ≡ false) (name r) (spaced (words r) [])
      (lacks-Without x (name r) (name-lacks x r small))
      (All-spaced (λ b. b == x ≡ false) (words r) [] (ground arith) all tt)

command-line : (r : Request) → length (text r) < command_size r → command r ≡ line r ++ codes "\n"
unfolding command
command-line r fits = take_all (command_size r - 1) (text r) (omega arith) ∙ text-line r

command_fits : (r : Request) → length (text r) < command_size r → length (line r) + 1 < 512
command_fits r fits =
    let measured : length (text r) ≡ length (line r) + 1 =
      ap length (text-line r) ∙ length-append (line r) (codes "\n") in
    omega (arith, command_size-bound r)
  where
    command_size-bound : (r : Request) → command_size r ≤ 512
    command_size-bound (signup u p q) = omega arith
    command_size-bound (login u p) = omega arith
    command_size-bound (upload u f n t) = omega arith
    command_size-bound (download u f) = omega arith
    command_size-bound (delete u f) = omega arith
    command_size-bound (list u) = omega arith

-- A request that the program sends is what the server reads: if its words are plain strings that the
-- directives take whole, and the command fits in the program's buffer, then recv_line takes exactly
-- this command from the stream and the parser makes the task of it that the request stands for.
pub parse-command :
    (r : Request) (t : Task) (buf rest : Bytes)
    → IsPlain r
    → All (Without 0) (words r)
    → length (text r) < command_size r
    → (parse t (c_string (recv_line 512 buf (command r ++ rest)).0) ≡ pushes (meant r t))
      × ((recv_line 512 buf (command r ++ rest)).2 ≡ rest)
parse-command r t buf rest plain clear fits =
    let sent : command r ++ rest ≡ line r ++ b'\n' ∷ rest =
      ap (λ c. c ++ rest) (command-line r fits) ∙ append_assoc (line r) (codes "\n") rest in
    let one = line-Without b'\n' r (omega arith) (words-Without r plain) in
    let none_zero = line-Without 0 r (omega arith) clear in
    let (read, count, left) =
      recv_line-line 512 buf (line r) rest one none_zero (command_fits r fits) in
    rw (sent, read) (parse-line r t plain, left)
