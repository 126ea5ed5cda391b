-- ===== src/Task.antt =====
-- include/types.h and src/task.c: tasks, and the comparison by which the task queue is ordered.
pub mod Order
use os_lab.Prelude.{
  ℕ, ◌-◌, Bool, true, false, Option, none, some, [], ℤ, pos, negsuc, Bytes, codes, strncpy, ltb,
  if◌then◌else◌,
}
use os_lab.Priority.{TaskPriority, to_ℕ}

pub data CommandType : Type 0 where
  unknown upload download delete list signup login quit : CommandType

pub record ClientInfo : Type 0 where
  pub client_id : ℕ
  pub socket_fd : ℕ

-- `struct timespec`, as `clock_gettime(CLOCK_REALTIME)` fills it.
pub record Timespec : Type 0 where
  pub tv_sec : ℕ
  pub tv_nsec : ℕ

pub record Task : Type 0 where
  pub type : CommandType
  pub client : ClientInfo
  pub username : Bytes
  pub password : Bytes
  pub path : Bytes
  pub tmpfile : Bytes
  pub size : ℕ
  pub priority : TaskPriority
  pub enqueue_time : Timespec

-- A zeroed array into which a string, unless it is NULL, was copied by `strncpy`.
abbrev copied : ℕ → Option Bytes → Bytes
copied size none = []
copied size (some s) = strncpy size s

-- `allocated` says whether `calloc` succeeded, and `now` is what the clock showed.
unfoldable pub task_create :
    Bool
    → Timespec
    → CommandType
    → ClientInfo
    → (username password path tmpfile : Option Bytes) → ℕ
    → TaskPriority
    → Option Task
task_create false now type client username password path tmpfile size priority = none
task_create true now type client username password path tmpfile size priority = some (record {
  type = type;
  client = client;
  username = copied 64 username;
  password = copied 64 password;
  path = copied 256 path;
  tmpfile = copied 256 tmpfile;
  size = size;
  priority = priority;
  enqueue_time = now;
})

unfoldable pub task_compare_priority : Task → Task → ℤ
task_compare_priority a b =
    if ltb (to_ℕ b.priority) (to_ℕ a.priority)
    then negsuc 0
    else if ltb (to_ℕ a.priority) (to_ℕ b.priority)
    then pos 1
    else if ltb a.enqueue_time.tv_sec b.enqueue_time.tv_sec
    then negsuc 0
    else if ltb b.enqueue_time.tv_sec a.enqueue_time.tv_sec
    then pos 1
    else if ltb a.enqueue_time.tv_nsec b.enqueue_time.tv_nsec
    then negsuc 0
    else if ltb b.enqueue_time.tv_nsec a.enqueue_time.tv_nsec
    then pos 1
    else pos 0

-- The `default` of the source is for integers outside the enumeration.
unfoldable pub command_to_string : CommandType → Bytes
command_to_string unknown = codes "UNKNOWN"
command_to_string upload = codes "UPLOAD"
command_to_string download = codes "DOWNLOAD"
command_to_string delete = codes "DELETE"
command_to_string list = codes "LIST"
command_to_string signup = codes "SIGNUP"
command_to_string login = codes "LOGIN"
command_to_string quit = codes "QUIT"
