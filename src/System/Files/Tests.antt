-- ===== src/System/Files/Tests.antt =====
-- A server whose worker takes an upload of the user ann, while the user robert has a file.
use os_lab.Prelude.{inr, ◌≡◌, ap, refl, false, [], ◌∷◌, some, codes, str_eq, length, arith}
use os_lab.Priority.{low}
use os_lab.Disk.{read}
use os_lab.Queue.{queue_pop}
use os_lab.Heap.{heapify_down}
use os_lab.Fs.{build_user_path}
use os_lab.Users.Tests.{lists}
use os_lab.Responses.Tests.{ties}
use os_lab.Server.{started}
use os_lab.Worker.{handle_task}
use os_lab.Worker.Tests.{smooth, uploading, with_roberts_file, ann-IsPlain, robert-IsPlain}
use os_lab.System.{System, works, Reach, here, next}
use os_lab.System.Files.{Reach-stored}
use os_lab.System.Tests.{entries_tie, clients_tie, system}

abbrev before : System lists ties entries_tie clients_tie
before = record system {
  server = record started {
    task_queue = record {
      items = record { item = uploading; priority = low } ∷ [];
      capacity = 16;
      closed = false;
    };
  };
  world = with_roberts_file;
}

abbrev after : System lists ties entries_tie clients_tie
after = record before {
  server = record started { task_queue = record { items = []; capacity = 16; closed = false } };
  world = handle_task lists ties smooth with_roberts_file uploading;
}

one_task : Reach lists ties entries_tie clients_tie before after
unfolding queue_pop heapify_down
one_task = next here (works smooth uploading after.server.task_queue refl)

Reach-stored_example :
    read after.world.disk
      (build_user_path (codes "/srv") (codes "robert") (some (codes "b.txt")) 512)
    ≡ read before.world.disk
        (build_user_path (codes "/srv") (codes "robert") (some (codes "b.txt")) 512)
unfolding one_task str_eq build_user_path
Reach-stored_example =
    Reach-stored lists ties entries_tie clients_tie before (codes "robert") (codes "b.txt") one_task
      (
        record {
          other = λ e. omega (arith, ap length e);
          owner = (omega arith, ann-IsPlain, refl, refl);
          name = inr (omega arith, (refl, (refl, (refl, (refl, (refl, tt))))), refl, refl);
          fits = omega arith;
          canonical = (
            codes "tmp" ∷ codes "u" ∷ [],
            (
              (omega arith, (refl, (refl, (refl, tt))), refl, refl),
              ((omega arith, (refl, tt), refl, refl), tt),
            ),
            refl,
          );
          apart = refl;
        },
        tt,
      )
      record {
        canonical =
            (codes "srv" ∷ [], ((omega arith, (refl, (refl, (refl, tt))), refl, refl), tt), refl);
        owner = (omega arith, robert-IsPlain, refl, refl);
        name = (omega arith, (refl, (refl, (refl, (refl, (refl, tt))))), refl, refl);
        no_copy = refl;
        fits = omega arith;
      }
