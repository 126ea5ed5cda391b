-- ===== src/Worker/Tests.antt =====
-- Tasks of one user, carried out by a worker of src/worker.c.
use os_lab.Prelude.{
  Bytes, List, Perm, false, ◌++◌, none, ◌+◌, ◌≡◌, refl, true, [], ◌∷◌, some, codes, str_eq, arith,
}
use os_lab.Priority.{high, low}
use os_lab.Task.{Task, task_compare_priority, upload, download, login, signup, list}
use os_lab.Worker.{Outside, World, max_upload, handle_task, handle_upload}
use os_lab.Worker.Answers.{Handled, handle_task-Handled}
use os_lab.Worker.Effects.{Refused, large_upload-Refused}
use os_lab.Disk.{read}
use os_lab.Fs.{build_user_path, temp_path}
use os_lab.Worker.Files.{Transfer, Transferred, handle_download-upload}
use os_lab.Fs.Names.{IsPlain}
use os_lab.Worker.Moves.{Uploadable, handle_upload-moves}
use os_lab.Fs.Upload.{encoded}
use os_lab.Fs.Tests.{fine, fine-Works}
use os_lab.TaskQueue.{task_inhabited}
use os_lab.TaskQueue.Tests.{task, waiting, waiting-IsValid}
use os_lab.Task.Order.{Follows}
use os_lab.Queue.History.{held}
use mathlib.Core.List.{Pairwise}
use os_lab.Queue.{IsValid, queue_close}
use os_lab.Worker.Loop.{worker_thread, returned, handle_all, worker_thread-drain}
use os_lab.Users.{
  memory, user_store_create, user_of, user_store_lock_user, locked_memory, find_user,
}
use os_lab.Users.Tests.{lists, in_memory, nothing, ann}
use os_lab.Users.Held.{run, nothing_held}
use os_lab.Users.Calls.{create_calls, destroy_calls}
use os_lab.Worker.Requests.{tasks_calls, handle_all-GivenBack}
use os_lab.Responses.Tests.{ties, two_clients}

abbrev pub smooth : Outside
smooth = record {
  calls = fine;
  allocates_user = true;
  allocates_account = true;
  allocates_response = true;
  grows = true;
  opens_tmpfile = true;
  unlinks = true;
  opens_sent = true;
  entries = some [];
  megabytes = λ size. codes "12.00";
}

abbrev pub world : World lists ties
world = record { user_store = in_memory; disk = nothing; resp_queues = two_clients; wire = [] }

abbrev huge : Task
huge = record (task upload high 1) { size = max_upload + 1; tmpfile = codes "/tmp/u" }

abbrev entering : Task
entering = record (task login low 1) { password = codes "pw" }

handle_task-Handled_example :
    Handled lists ties upload smooth world (handle_task lists ties smooth world huge) huge
handle_task-Handled_example = handle_task-Handled lists ties smooth world huge

large_upload-Refused_example :
    Refused lists ties smooth world (handle_upload lists ties smooth world huge) huge
large_upload-Refused_example = large_upload-Refused lists ties smooth world huge (omega arith)

closed_waiting-IsValid : IsValid task_compare_priority (queue_close waiting)
closed_waiting-IsValid = record { bounded = waiting-IsValid.bounded; heap = waiting-IsValid.heap }

worker_thread-drain_example :
    (tasks : List Task) × Perm tasks (held (queue_close waiting))
    × Pairwise Follows tasks
    × (worker_thread lists ties (λ t. smooth) (queue_close waiting) world
        ≡ (handle_all lists ties (λ t. smooth) tasks world, returned))
worker_thread-drain_example =
    worker_thread-drain lists ties (λ t. smooth) (queue_close waiting) world refl
      closed_waiting-IsValid

abbrev with_tmpfile : World lists ties
with_tmpfile = record world {
  disk = record { files = (codes "/tmp/u", codes "hello") ∷ []; dirs = [] };
}

abbrev pub uploading : Task
uploading = record (task upload low 1) { tmpfile = codes "/tmp/u"; size = 5 }

abbrev downloading : Task
downloading = task download low 2

sends : Uploadable lists ties smooth with_tmpfile uploading (codes "hello")
unfolding user_store_lock_user locked_memory find_user str_eq read build_user_path
sends = record {
  u = user_of ann 100;
  account = refl;
  path_given = refl;
  tmpfile_given = refl;
  small = omega arith;
  held = refl;
  opens = refl;
  works = fine-Works;
  apart = refl;
}

transfer : Transfer lists ties smooth smooth with_tmpfile uploading downloading (codes "hello")
unfolding user_store_lock_user locked_memory find_user str_eq build_user_path temp_path
transfer = record {
  sends = sends;
  u' = user_of ann 100;
  account' = refl;
  same_user = refl;
  same_path = refl;
  bytes = omega arith;
  works' = fine-Works;
  seeks = refl;
  tells = refl;
  apart' = refl;
  short = omega arith;
}

handle_download-upload_example :
    Transferred lists ties smooth smooth with_tmpfile uploading downloading (codes "hello")
handle_download-upload_example =
    handle_download-upload lists ties smooth smooth with_tmpfile uploading downloading
      (codes "hello") transfer

abbrev roberts_file : Bytes
roberts_file = codes "/srv/robert/b.txt"

abbrev pub with_roberts_file : World lists ties
with_roberts_file = record world {
  disk = record { files = (roberts_file, codes "mine") ∷ []; dirs = [] };
}

-- An upload by the user ann that names the stored file of robert as its temporary file.
abbrev taking : Task
taking = record (task upload low 1) { tmpfile = roberts_file; size = 4 }

takes : Uploadable lists ties smooth with_roberts_file taking (codes "mine")
unfolding user_store_lock_user locked_memory find_user str_eq read build_user_path
takes = record {
  u = user_of ann 100;
  account = refl;
  path_given = refl;
  tmpfile_given = refl;
  small = omega arith;
  held = refl;
  opens = refl;
  works = fine-Works;
  apart = refl;
}

handle_upload-moves_example :
    (read
        (handle_upload lists ties smooth with_roberts_file taking).disk
        (build_user_path (codes "/srv") ann (some (codes "a.txt")) 512)
      ≡ some (encoded (codes "mine")))
    × (read (handle_upload lists ties smooth with_roberts_file taking).disk roberts_file ≡ none)
handle_upload-moves_example =
    handle_upload-moves lists ties smooth with_roberts_file taking (codes "mine") takes refl

pub ann-IsPlain : IsPlain ann
ann-IsPlain = (refl, (refl, (refl, tt)))

pub robert-IsPlain : IsPlain (codes "robert")
robert-IsPlain = (refl, (refl, (refl, (refl, (refl, (refl, tt))))))

abbrev tasks_of_ann : List Task
tasks_of_ann = task signup low 1 ∷ task login low 1 ∷ task list low 2 ∷ []

abbrev new_world : World lists ties
new_world = record world {
  user_store = record { storage_root = codes "/srv"; storage = memory [] };
}

handle_all-GivenBack_example :
    run
      (create_calls lists true true false (codes "users.db") (some (codes "/srv"))
        ++ (tasks_calls lists ties (λ t. smooth) tasks_of_ann new_world
            ++ destroy_calls lists
                (some (handle_all lists ties (λ t. smooth) tasks_of_ann new_world).user_store)))
      nothing_held
    ≡ some nothing_held
unfolding user_store_create
handle_all-GivenBack_example =
    handle_all-GivenBack lists ties (λ t. smooth) true false true false nothing nothing
      (codes "users.db") (some (codes "/srv")) tasks_of_ann new_world refl
