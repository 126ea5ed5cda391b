-- ===== src/Client/Command.antt =====
-- How client_thread_main of src/client.c makes a task of a line.
use os_lab.Prelude.{
  ℕ, zero, suc, ◌-◌, Bool, true, false, ◌&&◌, List, [], ◌∷◌, Option, none, some, Bytes, codes, map,
  length, drop, str_eq, leb, ◌==◌, if◌then◌else◌,
}
use os_lab.Priority.{TaskPriority, low, normal, high}
use os_lab.Task.{
  Task, ClientInfo, Timespec, task_create, unknown, upload, download, delete, list, signup, login,
}
use os_lab.Scan.{scan_words, scan_size}

-- `strncmp(line, prefix, strlen(prefix)) == 0`
unfoldable pub starts_with : (line prefix : Bytes) → Bool
starts_with line [] = true
starts_with [] (p ∷ prefix) = false
starts_with (b ∷ line) (p ∷ prefix) = b == p && starts_with line prefix

abbrev to_upper : ℕ → ℕ
to_upper b = if leb b'a' b && leb b b'z' then b - 32 else b

-- `strcasecmp(text, name) == 0`, for a name in capital letters.
abbrev pub equals_caseless : (text name : Bytes) → Bool
equals_caseless text name = str_eq (map to_upper text) name

-- The string that the `i`-th directive stored; the zeroed array where it stored none.
abbrev pub word : ℕ → List Bytes → Bytes
word i [] = []
word zero (w ∷ words) = w
word (suc i) (w ∷ words) = word i words

abbrev pub named_priority : Bytes → TaskPriority
named_priority text =
    if equals_caseless text (codes "HIGH")
    then high
    else if equals_caseless text (codes "LOW")
    then low
    else normal

abbrev signup_task : Task → List Bytes → Task
signup_task t words = record t {
  type = signup;
  username = word 0 words;
  password = word 1 words;
  priority = if leb 3 (length words) then named_priority (word 2 words) else normal;
}

abbrev pub sized_upload : Task → Option (ℕ × Bytes) → Task
sized_upload t none = t
sized_upload t (some (size, rest)) = record t {
  size = size;
  tmpfile = word 0 (scan_words (255 ∷ []) rest).0;
}

-- `%63s %255s %zu %255s`: the last two are reached where the first two match.
abbrev upload_task : Task → List Bytes × Bytes → Task
upload_task t (words, rest) =
    let named : Task = record t {
      type = upload;
      username = word 0 words;
      path = word 1 words;
      priority = normal;
    } in
    if length words == 2 then sized_upload named (scan_size rest) else named

-- What becomes of a line: a task to push, the end of the session, or nothing.
pub data Parsed : Type 0 where
  pushes : Task → Parsed
  quits : Parsed
  skips : Parsed

-- `t` is the task that was created for the line.
unfoldable pub parse : Task → Bytes → Parsed
unfolding starts_with
parse t line =
    if starts_with line (codes "SIGNUP")
    then pushes (signup_task t (scan_words (63 ∷ 63 ∷ 15 ∷ []) (drop 6 line)).0)
    else if starts_with line (codes "LOGIN")
    then (let words = (scan_words (63 ∷ 63 ∷ []) (drop 5 line)).0 in
        pushes (record t {
          type = login;
          username = word 0 words;
          password = word 1 words;
          priority = high;
        }))
    else if starts_with line (codes "UPLOAD")
    then pushes (upload_task t (scan_words (63 ∷ 255 ∷ []) (drop 6 line)))
    else if starts_with line (codes "DOWNLOAD")
    then (let words = (scan_words (63 ∷ 255 ∷ []) (drop 8 line)).0 in
        pushes (record t {
          type = download;
          username = word 0 words;
          path = word 1 words;
          priority = normal;
        }))
    else if starts_with line (codes "DELETE")
    then (let words = (scan_words (63 ∷ 255 ∷ []) (drop 6 line)).0 in
        pushes (record t {
          type = delete;
          username = word 0 words;
          path = word 1 words;
          priority = high;
        }))
    else if starts_with line (codes "LIST")
    then (let words = (scan_words (63 ∷ []) (drop 4 line)).0 in
        pushes (record t { type = list; username = word 0 words; priority = low }))
    else if starts_with line (codes "QUIT")
    then quits
    else skips

-- The task that is created for a line: all strings empty, of the priority NORMAL.
abbrev pub create : Bool → Timespec → ClientInfo → Option Task
create allocated now client =
    task_create allocated now unknown client (some []) (some []) (some []) (some []) 0 normal

abbrev pub parsed : Option Task → Bytes → Parsed
parsed none line = skips
parsed (some t) line = parse t line

-- A line read, with the outcome of `calloc`. Without memory an error text goes to the client.
unfoldable pub parse_command : Bool → Timespec → ClientInfo → Bytes → Parsed
unfolding task_create parse starts_with scan_words scan_size
parse_command allocated now client line = parsed (create allocated now client) line
