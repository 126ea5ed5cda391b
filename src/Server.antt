-- ===== src/Server.antt =====
-- src/main.c: the server's state, the accept loop with on_sigint, and the shutdown.
pub mod Ids
pub mod Stop
pub mod Start
pub mod Parts
pub mod Main
use os_lab.Prelude.{
  ℕ, suc, ◌+◌, Bool, true, false, List, [], ◌∷◌, Option, none, some, ℤ, map, if◌then◌else◌,
  Inhabited,
}
use os_lab.Priority.{normal}
use os_lab.Task.{Task, ClientInfo}
use os_lab.Queue.{PriorityItem, Queue, queue_init, queue_close, queue_destroy, queue_push}
use os_lab.Responses.{ResponseQueueEntry, entry_inhabited, register_client_response_queue}

instance abbrev pub client_inhabited : Inhabited ClientInfo
client_inhabited = record { default = record { client_id = 0; socket_fd = 0 } }

-- The state of the source without the user store, with the variables `client_queue` and
-- `next_client_id` of `main`.
pub record ServerState : Type 0 where
  pub task_queue : Queue Task
  pub response_map : Queue ResponseQueueEntry
  pub client_queue : Queue ClientInfo
  pub running : Bool
  pub next_client_id : ℕ

-- A new connection, and how the calls go: `calloc` of the entry, and the `realloc` of both queues. The
-- `calloc` of the ClientInfo, which the source does not check, succeeds.
pub record Connection : Type 0 where
  pub cfd : ℕ
  pub allocated : Bool
  pub grows_map : Bool
  pub grows_clients : Bool

-- What the accept loop meets: a connection, an `accept` that fails, or the signal, which stops the server
-- and closes the socket that it listens on.
pub data Event : Type 0 where
  connection : Connection → Event
  accept_fails : Event
  sigint : Event

abbrev pub started : ServerState
started = record {
  task_queue = queue_init;
  response_map = queue_init;
  client_queue = queue_init;
  running = true;
  next_client_id = 1;
}

abbrev pub on_sigint : ServerState → ServerState
on_sigint s = record s { running = false }

module _ (cmp : ResponseQueueEntry → ResponseQueueEntry → ℤ)
    (cmp_clients : ClientInfo → ClientInfo → ℤ) where
  -- One connection: its entry in the response map, and its place in the queue of clients.
  unfoldable pub accept_client : Connection → ServerState → ServerState
  unfolding register_client_response_queue queue_push
  accept_client c s =
      let ci : ClientInfo = record { client_id = s.next_client_id; socket_fd = c.cfd } in
      record s {
        response_map =
            (register_client_response_queue cmp c.allocated c.grows_map s.response_map
              s.next_client_id).0;
        next_client_id = s.next_client_id + 1;
        client_queue = (queue_push cmp_clients c.grows_clients s.client_queue ci normal).0;
      }

  abbrev pub handle_event : Event → ServerState → ServerState
  handle_event (connection c) s = accept_client c s
  handle_event accept_fails s = s
  handle_event sigint s = on_sigint s

  -- `while (server->running)`, as far as the events go. The threads work between them on the queues.
  unfoldable pub accept_loop : List Event → ServerState → ServerState
  unfolding accept_client
  accept_loop [] s = s
  accept_loop (e ∷ events) s =
      let more = accept_loop events (handle_event e s) in if s.running then more else s

-- Behind the loop: closing the queues wakes the threads that wait for clients and tasks.
unfoldable pub shut_down : ServerState → ServerState
shut_down s = record s {
  client_queue = queue_close s.client_queue;
  task_queue = queue_close s.task_queue;
  response_map = queue_close s.response_map;
}

-- Behind the joins of the threads. The queues of the entries that are left go with them.
unfoldable pub clean_up : ServerState → ServerState
clean_up s = record s {
  client_queue = queue_destroy s.client_queue;
  task_queue = queue_destroy s.task_queue;
  response_map = queue_destroy s.response_map;
}
