-- ===== src/Config.antt =====
-- include/config.h and src/config.c: the configuration and its file.
pub mod Trim
pub mod Lines
pub mod Options
mod Tests
use os_lab.Prelude.{
  ℕ, zero, suc, ◌+◌, ◌-◌, Bool, true, false, not, ◌&&◌, ◌||◌, List, [], ◌∷◌, ◌++◌, Option, none,
  some, Bytes, codes, str_eq, strncpy, length, ◌==◌, if◌then◌else◌,
}
use os_lab.Disk.{Disk, make_dir}

pub record Config : Type 0 where
  pub use_persistent_storage : Bool
  pub storage_path : Bytes
  pub database_file : Bytes

-- `set_default_config`
abbrev pub default_config : Config
default_config = record {
  use_persistent_storage = true;
  storage_path = codes "./storage";
  database_file = codes "users.db";
}

abbrev pub is_blank : ℕ → Bool
is_blank b = b == 32 || b == 9

abbrev pub is_space : ℕ → Bool
is_space b = b == 32 || b == 9 || b == 10 || b == 13

-- From the first byte that is not blank on.
pub drop_blank : Bytes → Bytes
drop_blank [] = []
drop_blank (b ∷ text) = let rest = drop_blank text in if is_blank b then rest else b ∷ text

abbrev pub cons_unless_space : ℕ → Bytes → Bytes
cons_unless_space b [] = if is_space b then [] else b ∷ []
cons_unless_space b (c ∷ text) = b ∷ c ∷ text

-- Without the spaces at the end.
pub drop_spaces : Bytes → Bytes
drop_spaces [] = []
drop_spaces (b ∷ text) = cons_unless_space b (drop_spaces text)

-- The loop from the end stops at `start` at the latest.
abbrev pub keep_first : Bytes → Bytes
keep_first [] = []
keep_first (b ∷ text) = b ∷ drop_spaces text

unfoldable pub trim_whitespace : Bytes → Bytes
unfolding drop_blank drop_spaces
trim_whitespace str = keep_first (drop_blank str)

-- The bytes before the first that passes the test, and those from it on.
pub before : (ℕ → Bool) → Bytes → Bytes
before p [] = []
before p (b ∷ text) = let rest = before p text in if p b then [] else b ∷ rest

pub from : (ℕ → Bool) → Bytes → Bytes
from p [] = []
from p (b ∷ text) = let rest = from p text in if p b then b ∷ text else rest

abbrev pub is_equals : ℕ → Bool
is_equals b = b == 61

abbrev pub is_line_end : ℕ → Bool
is_line_end b = b == 13 || b == 10

abbrev pub token_of : Bytes → Option (Bytes × Bytes)
token_of [] = none
token_of (b ∷ rest) = some (before is_equals (b ∷ rest), from is_equals (b ∷ rest))

-- A call of `strtok` with the delimiter `=`: the token, and what the next call goes on with.
abbrev pub token : Bytes → Option (Bytes × Bytes)
token text = token_of (from (λ b. not (is_equals b)) text)

abbrev pub set_option : Config → (key value : Bytes) → Config
set_option c key value =
    if str_eq key (codes "use_persistent_storage")
    then record c { use_persistent_storage = str_eq value (codes "1") }
    else if str_eq key (codes "storage_path")
    then record c { storage_path = strncpy 512 value }
    else if str_eq key (codes "database_file")
    then record c { database_file = strncpy 512 value }
    else c

abbrev pub skipped : Bytes → Bool
skipped [] = true
skipped (b ∷ line) = b == 35 || b == 10 || b == 13

abbrev pub set_value : Config → Bytes → Option (Bytes × Bytes) → Config
set_value c key none = c
set_value c key (some (value, _)) = set_option c (trim_whitespace key) (trim_whitespace value)

abbrev pub with_tokens : Config → Option (Bytes × Bytes) → Config
with_tokens c none = c
with_tokens c (some (key, rest)) = set_value c key (token rest)

-- The body of the loop in `config_init`.
unfoldable pub read_line : Config → Bytes → Config
unfolding before from trim_whitespace
read_line c line = if skipped line then c else with_tokens c (token (before is_line_end line))

-- The lines that `fgets` gives with a buffer of `size` bytes: each ends behind a newline, or where it
-- has `size - 1` bytes. `line` is what the buffer holds, and `room` what fits behind the next byte.
pub fgets_lines : (size room : ℕ) → (line : Bytes) → Bytes → List Bytes
fgets_lines size room [] [] = []
fgets_lines size room (c ∷ line) [] = (c ∷ line) ∷ []
fgets_lines size zero line (b ∷ text) = (line ++ b ∷ []) ∷ fgets_lines size (size - 2) [] text
fgets_lines size (suc room) line (b ∷ text) =
    let fresh = fgets_lines size (size - 2) [] text in
    let more = fgets_lines size room (line ++ b ∷ []) text in
    if b == 10 then (line ++ b ∷ []) ∷ fresh else more

pub read_lines : Config → List Bytes → Config
read_lines c [] = c
read_lines c (line ∷ lines) = read_lines (read_line c line) lines

-- `file` is the text of the file, if it can be opened; `exists` and `made` are the outcomes of `stat`
-- and `mkdir` for the storage directory. The file has no NUL bytes.
unfoldable pub config_init : (exists made : Bool) → Disk → Option Bytes → Disk × Config
unfolding read_lines fgets_lines read_line
config_init exists made d none = (d, default_config)
config_init exists made d (some text) =
    let config = read_lines default_config (fgets_lines 256 254 [] text) in
    let makes = config.use_persistent_storage && not exists && made in
    (if makes then make_dir d config.storage_path else d, config)
