-- ===== src/System/Files.antt =====
-- What the tasks of other users do to a stored file, over whole runs of the server.
mod Tests
use mathlib.Core.Path.{subst}
use os_lab.Prelude.{
  ◌<◌, ◌==◌, ◌⊎◌, length, All, [], ◌∷◌, ◌++◌, codes, ◌≡◌, ◌≢◌, refl, ◌∙◌, false, List, Option, some,
  Bytes, ℤ, str_eq,
}
use os_lab.Disk.{read}
use os_lab.Task.{Task, ClientInfo}
use os_lab.Sql.{Sql}
use os_lab.Fs.{build_user_path}
use os_lab.Fs.Names.{IsPlain, FitsPath}
use os_lab.Responses.{Response, ResponseQueueEntry}
use os_lab.Worker.{Outside, World, handle_task}
use os_lab.Worker.Owners.{handle_task-others}
use os_lab.Worker.Stores.{handle_task-storage_root}
use os_lab.System.{
  System, Step, accepts, stops, starts, submits, works, receives, ends, Reach, here, next,
}

-- A name of a file or a directory in a directory: not empty, without a slash, and neither `.` nor `..`.
abbrev pub IsComponent : Bytes → Type 0
IsComponent name =
    (0 < length name)
    × IsPlain name
    × (str_eq name (codes ".") ≡ false)
    × (str_eq name (codes "..") ≡ false)

abbrev pub slashed : List Bytes → Bytes
slashed [] = []
slashed (name ∷ names) = b'/' ∷ (name ++ slashed names)

-- The path is absolute and says nothing twice, so two different paths of this kind are two different
-- files, where no link leads to another place. The empty path, which opens no file, is among them.
abbrev pub IsCanonical : Bytes → Type 0
IsCanonical path = (names : List Bytes) × All IsComponent names × (path ≡ slashed names)

-- The decoded copies of downloads have relative paths, and all begin with an underscore.
abbrev pub IsNoCopy : Bytes → Type 0
IsNoCopy [] = Unit {0}
IsNoCopy (b ∷ name) = (b == 95) ≡ false

-- A file of a user under a canonical root, with a path that is not cut.
pub record KeptFile (root user rel : Bytes) : Type 0 where
  pub canonical : IsCanonical root
  pub owner : IsComponent user
  pub name : IsComponent rel
  pub no_copy : IsNoCopy rel
  pub fits : FitsPath root user rel

-- A task of another user: the user and the file, if it names one, are names of one component, the path
-- of the two is not cut, and the temporary file, if there is one, has a canonical path that is
-- not the stored file at `root` of the user itself.
pub record Foreign (root user rel : Bytes) (t : Task) : Type 0 where
  pub other : t.username ≢ user
  pub owner : IsComponent t.username
  pub name : (t.path ≡ []) ⊎ IsComponent t.path
  pub fits : FitsPath root t.username t.path
  pub canonical : IsCanonical t.tmpfile
  pub apart : str_eq t.tmpfile (build_user_path root user (some rel) 512) ≡ false

module _ (sql : Sql) (cmp : Response → Response → ℤ)
    (cmp_entries : ResponseQueueEntry → ResponseQueueEntry → ℤ)
    (cmp_clients : ClientInfo → ClientInfo → ℤ) (start : System sql cmp cmp_entries cmp_clients)
    (user rel : Bytes) where
  abbrev root : Bytes
  root = start.world.user_store.storage_root

  abbrev stored_at : Bytes
  stored_at = build_user_path root user (some rel) 512

  abbrev Runs : System sql cmp cmp_entries cmp_clients → Type 0
  Runs = Reach sql cmp cmp_entries cmp_clients start

  abbrev TakesForeign :
      {s t : System sql cmp cmp_entries cmp_clients}
      → Step sql cmp cmp_entries cmp_clients s t
      → Type 0
  TakesForeign (works o t tasks taken) = Foreign root user rel t
  TakesForeign _ = Unit {0}

  -- Every task that a worker carried out on the way is foreign.
  abbrev pub AllForeign : {s : System sql cmp cmp_entries cmp_clients} → Runs s → Type 0
  AllForeign here = Unit {0}
  AllForeign (next r st) = TakesForeign st × AllForeign r

  others_at :
      (o : Outside) (w : World sql cmp) (t : Task) (r : Bytes)
      → w.user_store.storage_root ≡ r
      → IsPlain user
      → FitsPath r user rel
      → Foreign r user rel t
      → read (handle_task sql cmp o w t).disk (build_user_path r user (some rel) 512)
        ≡ read w.disk (build_user_path r user (some rel) 512)
  others_at o w t r at plain =
      subst
        (λ r.
          FitsPath r user rel
          → Foreign r user rel t
          → read (handle_task sql cmp o w t).disk (build_user_path r user (some rel) 512)
            ≡ read w.disk (build_user_path r user (some rel) 512))
        at
        (λ fits f.
          handle_task-others sql cmp o w t user rel f.other f.owner.1 plain f.fits fits f.apart)

  -- The root of the files and the stored file are those of the start.
  abbrev AtStart : System sql cmp cmp_entries cmp_clients → Type 0
  AtStart s =
      (s.world.user_store.storage_root ≡ root)
      × (read s.world.disk stored_at ≡ read start.world.disk stored_at)

  module _ (plain : IsPlain user) (fits : FitsPath root user rel) where
    Step-AtStart :
        {s t : System sql cmp cmp_entries cmp_clients}
        (st : Step sql cmp cmp_entries cmp_clients s t)
        → TakesForeign st
        → AtStart s
        → AtStart t
    Step-AtStart (accepts c runs) f at = at
    Step-AtStart stops f at = at
    Step-AtStart (starts ci clients taken) f at = at
    Step-AtStart (submits ci others served allocated grows now line t parsed) f at = at
    Step-AtStart {s} (works o t tasks taken) f (same_root, same_file) = (
      handle_task-storage_root sql cmp o s.world t ∙ same_root,
      others_at o s.world t root same_root plain fits f ∙ same_file,
    )
    Step-AtStart (receives ci others served q left r there taken) f at = at
    Step-AtStart (ends ci others served) f at = at

    Reach-AtStart :
        {s : System sql cmp cmp_entries cmp_clients} (r : Runs s) → AllForeign r → AtStart s
    Reach-AtStart here f = (refl, refl)
    Reach-AtStart (next r st) (f, rest) = Step-AtStart st f (Reach-AtStart r rest)

  -- In every run of the server, whatever the clients, the other threads and the failing calls do: the
  -- stored file of a user is as it was at the start, if all tasks that were carried out are of other
  -- users. The root and the paths of temporary files are absolute, without empty components, `.` and
  -- `..`; names of users and files are one such component, where a task names a file; no path is cut;
  -- the stored file is not named like a decoded copy, and is no task's temporary file. The file
  -- system has no links among these paths.
  pub Reach-stored :
      {s : System sql cmp cmp_entries cmp_clients} (r : Runs s)
      → AllForeign r
      → KeptFile root user rel
      → read s.world.disk stored_at ≡ read start.world.disk stored_at
  Reach-stored r foreign stored = (Reach-AtStart stored.owner.1 stored.fits r foreign).1
