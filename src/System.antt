-- ===== src/System.antt =====
-- The server as a whole: the accept loop of src/main.c, the client threads of src/client.c and the worker
-- threads of src/worker.c, in any order of their steps. Every step but that of
-- a worker is one critical section, or touches the thread's own data only; a worker carries out a task in
-- one step, so no entry of the response map is freed between the two critical sections of
-- send_response (what can happen there is in Responses.Pointers).
pub mod Addressed
pub mod Isolation
pub mod Login
pub mod Refinement
pub mod Tasks
pub mod Files
pub mod Tests
use os_lab.Prelude.{
  ℕ, Bool, true, false, List, [], ◌∷◌, ◌++◌, Option, none, some, Bytes, ℤ, ◌≡◌, Perm, ◌==◌,
  if◌then◌else◌,
}
use os_lab.Task.{Task, ClientInfo, Timespec, task_compare_priority}
use os_lab.TaskQueue.{task_inhabited}
use os_lab.Queue.{PriorityItem, Queue, queue_init, popped, queue_push, queue_pop}
use os_lab.Sql.{Sql}
use os_lab.Responses.{
  Response, ResponseQueueEntry, response_inhabited, entry_inhabited,
  deregister_client_response_queue,
}
use os_lab.Responses.Delivery.{queue_of}
use os_lab.Worker.{Outside, World, handle_task}
use os_lab.Client.Command.{pushes, parse_command}
use os_lab.Server.{ServerState, client_inhabited, Connection, accept_client, on_sigint, shut_down}

-- The first entry with the id has the queue: what the client thread changes through its pointer.
unfoldable pub put_queue :
    ℕ
    → Queue Response
    → List (PriorityItem ResponseQueueEntry)
    → List (PriorityItem ResponseQueueEntry)
put_queue client_id q [] = []
put_queue client_id q (e ∷ entries) =
    let rest = put_queue client_id q entries in
    let filled : ResponseQueueEntry = record { client_id = e.item.client_id; queue = q } in
    if e.item.client_id == client_id
    then record { item = filled; priority = e.priority } ∷ entries
    else e ∷ rest

module _ (sql : Sql) (cmp : Response → Response → ℤ)
    (cmp_entries : ResponseQueueEntry → ResponseQueueEntry → ℤ)
    (cmp_clients : ClientInfo → ClientInfo → ℤ) where
  -- `world.resp_queues` is the server's response map. `serving` are the clients that the client threads
  -- work for, and `replies` what was written to them from their queues, the last first.
  pub record System : Type 0 where
    pub server : ServerState
    pub world : World sql cmp
    pub serving : List ClientInfo
    pub replies : List (ClientInfo × Response)

  -- The server's state with the response map that the workers see.
  abbrev pub server_of : System → ServerState
  server_of s = record s.server { response_map = s.world.resp_queues }

  abbrev pub with_server : System → ServerState → System
  with_server s server = record s {
    server = server;
    world = record s.world { resp_queues = server.response_map };
  }

  abbrev pub with_map : System → Queue ResponseQueueEntry → System
  with_map s map = record s { world = record s.world { resp_queues = map } }

  abbrev with_tasks : System → Queue Task → System
  with_tasks s tasks = record s { server = record s.server { task_queue = tasks } }

  pub data Step (s : System) : System → Type 0 where
    -- A connection in the accept loop.
    accepts :
        (c : Connection)
        → s.server.running ≡ true
        → Step s (with_server s (accept_client cmp_entries cmp_clients c (server_of s)))
    -- The signal, and the closing of the queues.
    stops : Step s (with_server s (shut_down (on_sigint (server_of s))))
    -- A client thread takes a client.
    starts :
        (ci : ClientInfo) (clients : Queue ClientInfo)
        → queue_pop cmp_clients s.server.client_queue ≡ popped ci clients
        → Step s (record s {
          server = record s.server { client_queue = clients };
          serving = ci ∷ s.serving;
        })
    -- A client thread makes a task of a line of its client, and pushes it.
    submits :
        (ci : ClientInfo) (others : List ClientInfo)
        → Perm (ci ∷ others) s.serving
        → (allocated grows : Bool) (now : Timespec) (line : Bytes) (t : Task)
        → parse_command allocated now ci line ≡ pushes t
        → Step s (
            with_tasks s
              (queue_push task_compare_priority grows s.server.task_queue t t.priority).0)
    -- A worker takes a task and carries it out, the response included, with nothing in between.
    works :
        (o : Outside) (t : Task) (tasks : Queue Task)
        → queue_pop task_compare_priority s.server.task_queue ≡ popped t tasks
        → Step s (record (with_tasks s tasks) { world = handle_task sql cmp o s.world t })
    -- A client thread takes a response from its client's queue and writes it to the client.
    receives :
        (ci : ClientInfo) (others : List ClientInfo)
        → Perm (ci ∷ others) s.serving
        → (q left : Queue Response) (r : Response)
        → queue_of s.world.resp_queues.items ci.client_id ≡ some q
        → queue_pop cmp q ≡ popped r left
        → Step s
            (record (with_map s (record s.world.resp_queues {
              items = put_queue ci.client_id left s.world.resp_queues.items;
            })) { replies = (ci, r) ∷ s.replies })
    -- A client thread is done with its client.
    ends :
        (ci : ClientInfo) (others : List ClientInfo)
        → Perm (ci ∷ others) s.serving
        → Step s
            (record (with_map s
              (deregister_client_response_queue s.world.resp_queues ci.client_id)) {
                serving = others;
              })

  -- The states that a server reaches from its start.
  pub data Reach (start : System) : System → Type 0 where
    here : Reach start start
    next : {s t : System} → Reach start s → Step s t → Reach start t
