-- ===== src/Priority.antt =====
-- include/priority.h and src/priority.c: the priorities of tasks and users.
use os_lab.Prelude.{ℕ, Bytes, codes, ltb, if◌then◌else◌}

pub data TaskPriority : Type 0 where
  low normal high : TaskPriority

-- `PRIORITY_COUNT`
abbrev pub priority_count : ℕ
priority_count = 3

-- The values of the enumeration, which C compares as integers.
abbrev pub to_ℕ : TaskPriority → ℕ
to_ℕ low = 0
to_ℕ normal = 1
to_ℕ high = 2

abbrev names : ℕ → Bytes
names p = if ltb p 1 then codes "LOW" else if ltb p 2 then codes "NORMAL" else codes "HIGH"

-- The argument is the enumeration's underlying integer, which may be out of its range.
unfoldable pub priority_to_string : ℕ → Bytes
priority_to_string p = if ltb p priority_count then names p else codes "UNKNOWN"
