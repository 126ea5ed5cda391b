-- ===== src/System/Tasks.antt =====
-- The task queue among the threads of the server: a run of the whole server is, for this queue, one of the
-- runs of src/queue.c.
use os_lab.Prelude.{
  ◌≡◌, Bool, true, false, List, [], ◌∷◌, ◌++◌, Perm, ℤ, inl, inr, Bool-cases, arith,
}
use os_lab.Task.{Task, ClientInfo, task_compare_priority}
use os_lab.TaskQueue.{task_inhabited}
use os_lab.Queue.{Queue, queue_init, queue_push}
use os_lab.Queue.History.{Log, held, Conserved, pushed-Conserved, popped-Conserved}
use os_lab.Queue.Insert.{queue_push-false}
use mathlib.Core.List.Perm
use os_lab.Sql.{Sql}
use os_lab.Responses.{Response, ResponseQueueEntry}
use os_lab.Server.{accept_client, shut_down}
use os_lab.System.{
  System, Step, accepts, stops, starts, submits, works, receives, ends, Reach, here, next,
}

module _ (sql : Sql) (cmp : Response → Response → ℤ)
    (cmp_entries : ResponseQueueEntry → ResponseQueueEntry → ℤ)
    (cmp_clients : ClientInfo → ClientInfo → ℤ) where
  abbrev Server : Type 0
  Server = System sql cmp cmp_entries cmp_clients

  abbrev pub task_if : Task → Bool → List Task
  task_if t true = t ∷ []
  task_if t false = []

  -- The task that a step of a worker takes and carries out.
  abbrev pub taken_by : {s t : Server} → Step sql cmp cmp_entries cmp_clients s t → List Task
  taken_by (works o task tasks pop) = task ∷ []
  taken_by (accepts c running) = []
  taken_by stops = []
  taken_by (starts ci clients pop) = []
  taken_by (submits ci others same allocated grows now line task is) = []
  taken_by (receives ci others same q left r found pop) = []
  taken_by (ends ci others same) = []

  -- The task that a client thread makes of a line, if the push accepts it.
  abbrev pub pushed_by : {s t : Server} → Step sql cmp cmp_entries cmp_clients s t → List Task
  pushed_by {s} (submits ci others same allocated grows now line task is) =
      task_if task (queue_push task_compare_priority grows s.server.task_queue task task.priority).1
  pushed_by (works o task tasks pop) = []
  pushed_by (accepts c running) = []
  pushed_by stops = []
  pushed_by (starts ci clients pop) = []
  pushed_by (receives ci others same q left r found pop) = []
  pushed_by (ends ci others same) = []

  abbrev pub all_taken :
      {start s : Server} → Reach sql cmp cmp_entries cmp_clients start s → List Task
  all_taken here = []
  all_taken (next r step) = taken_by step ++ all_taken r

  abbrev pub all_pushed :
      {start s : Server} → Reach sql cmp cmp_entries cmp_clients start s → List Task
  all_pushed here = []
  all_pushed (next r step) = pushed_by step ++ all_pushed r

  abbrev Kept : Queue Task → (taken pushed : List Task) → Type 0
  Kept q taken pushed =
      Conserved task_compare_priority (record { queue = q; pushed = pushed; taken = taken })

  Step-Kept :
      {s t : Server} (step : Step sql cmp cmp_entries cmp_clients s t) (taken pushed : List Task)
      → Kept s.server.task_queue taken pushed
      → Kept t.server.task_queue (taken_by step ++ taken) (pushed_by step ++ pushed)
  unfolding accept_client shut_down
  Step-Kept (accepts c running) taken pushed k = k
  Step-Kept (starts ci clients pop) taken pushed k = k
  Step-Kept (receives ci others same q left r found pop) taken pushed k = k
  Step-Kept (ends ci others same) taken pushed k = k
  Step-Kept stops taken pushed k = record { same = k.same; fits = k.fits }
  Step-Kept {s} (works o task tasks pop) taken pushed k =
      popped-Conserved task_compare_priority
        (record { queue = s.server.task_queue; pushed = pushed; taken = taken }) task tasks k pop
  Step-Kept {s} (submits ci others same allocated grows now line task is) taken pushed k =
      let q = s.server.task_queue in
      let l : Log Task = record { queue = q; pushed = pushed; taken = taken } in
      elim (Bool-cases (queue_push task_compare_priority grows q task task.priority).1) [
        | inl done ↦
            rw done (pushed-Conserved task_compare_priority l grows task task.priority k done)
        | inr refused ↦
            rw (refused, queue_push-false task_compare_priority grows q task task.priority refused)
              k
      ]

  Reach-Kept :
      {start s : Server} (run : Reach sql cmp cmp_entries cmp_clients start s)
      → start.server.task_queue ≡ queue_init
      → Kept s.server.task_queue (all_taken run) (all_pushed run)
  Reach-Kept here empty = rw empty (record { same = Perm.refl []; fits = omega arith })
  Reach-Kept (next run step) empty =
      Step-Kept step (all_taken run) (all_pushed run) (Reach-Kept run empty)

  -- In every run of a server that starts with a new task queue: the tasks that workers took in the run
  -- and those that still wait in the queue are exactly those that client threads made of their
  -- clients' lines and pushed with success, each as often: none is lost, taken twice, or made up.
  pub Reach-tasks :
      {start s : Server}
      → start.server.task_queue ≡ queue_init
      → (run : Reach sql cmp cmp_entries cmp_clients start s)
      → Perm (all_taken run ++ held s.server.task_queue) (all_pushed run)
  Reach-tasks empty run = (Reach-Kept run empty).same
