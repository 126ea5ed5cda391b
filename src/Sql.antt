-- ===== src/Sql.antt =====
-- What src/user_db.c relies on of SQLite, which is not part of the repository: an abstract database
-- with the statements that the source prepares.
use os_lab.Prelude.{ℕ, ◌≡◌, Bool, true, false, Option, some, Bytes, str_eq, if◌then◌else◌}

-- `SELECT 1`, `INSERT`, `SELECT password` and `SELECT username, quota_bytes`.
pub data Statement : Type 0 where
  check_user insert_user select_password select_user : Statement

-- A row of the table `users`. A column's text is `none` where `sqlite3_column_text` gives NULL.
pub record Row : Type 0 where
  pub username : Option Bytes
  pub password : Option Bytes
  pub quota_bytes : ℕ

pub record Sql : Type 1 where
  pub Db : Type 0
  -- `sqlite3_open`: the database at a path, or no success.
  pub open_db : Bytes → Option Db
  -- `sqlite3_exec` of the statement that creates the table if it is not there.
  pub create_table : Db → Option Db
  -- Whether `sqlite3_prepare_v2` succeeds.
  pub prepares : Db → Statement → Bool
  -- The row that a step of a selection by user name finds (SQLITE_ROW).
  pub select : Db → Bytes → Option Row
  -- A step of the insertion, and whether it ended well (SQLITE_DONE).
  pub insert : Db → Bytes → Bytes → ℕ → Db × Bool
  -- An insertion that ended well added the row, and changed no other user's.
  pub select-insert :
      (db : Db) (name pass : Bytes) (quota : ℕ)
      → (insert db name pass quota).1 ≡ true
      → (q : Bytes)
      → select (insert db name pass quota).0 q ≡ (
          if str_eq name q
          then some (record { username = some name; password = some pass; quota_bytes = quota })
          else select db q)
  -- One that did not end well changed nothing that a selection sees.
  pub insert_fails :
      (db : Db) (name pass : Bytes) (quota : ℕ)
      → (insert db name pass quota).1 ≡ false
      → (q : Bytes) → select (insert db name pass quota).0 q ≡ select db q
  -- Creating the table if it is not there keeps its rows.
  pub select-create_table :
      (db db' : Db) → create_table db ≡ some db' → (q : Bytes) → select db' q ≡ select db q
