-- ===== src/Server/Main.antt =====
-- main of src/main.c as a whole: the start, the threads, the accept loop, and the shutdown behind the
-- signal. What the threads do meanwhile is in System; here are the calls of the main thread. A join of a
-- worker ends behind the closing of the task queue; a join of a client thread ends behind the closing of
-- the client queue if the clients leave.
use os_lab.Prelude.{
  ℕ, zero, suc, Bool, true, false, List, [], ◌∷◌, ◌++◌, Option, none, some, Bytes, if◌then◌else◌,
}
use os_lab.Disk.{Disk}
use os_lab.Sql.{Sql}
use os_lab.Users.{UserStore}
use os_lab.Server.{ServerState, Event, connection, accept_fails, sigint}
use os_lab.Server.Start.{Start, start_up}
use os_lab.Server.Parts.{
  Call, Parts, no_parts, task_queue, response_map, client_queue, allocate_server, free_server,
  create_store, destroy_store, init_queue, close_queue, destroy_queue, open_socket, shut_socket,
  register_client, start_worker, join_worker, start_client, join_client, free_entry, open_queue,
  closed_queue,
}

abbrev pub worker_threads : ℕ
worker_threads = 4

abbrev pub client_threads : ℕ
client_threads = 4

-- A counted loop that makes the same call each time.
unfoldable pub each : ℕ → Call → List Call
each zero c = []
each (suc n) c = c ∷ each n c

-- `made` says whether `socket` succeeds. The results of the other calls are not looked at.
unfoldable pub tcp_listen : Bool → List Call
tcp_listen made = if made then open_socket ∷ [] else []

-- The socket is shut and closed if there is one.
unfoldable pub on_sigint_calls : Bool → List Call
on_sigint_calls made = if made then shut_socket ∷ [] else []

unfoldable pub accept_calls : Bool → List Call
accept_calls made = if made then register_client ∷ [] else []

-- What the handler does for the signals that come behind the first one: it is still installed, and
-- `listen_fd` still holds the number of the socket.
unfoldable pub later_signals : Bool → List Event → List Call
unfolding on_sigint_calls
later_signals made [] = []
later_signals made (sigint ∷ events) = on_sigint_calls made ++ later_signals made events
later_signals made (connection c ∷ events) = later_signals made events
later_signals made (accept_fails ∷ events) = later_signals made events

-- The accept loop, with what comes behind it; without the signal it still waits for clients. Later
-- signals can come at any time; here they come before what is behind the loop.
unfoldable pub loop_calls : Bool → List Event → List Call → List Call
unfolding accept_calls on_sigint_calls later_signals
loop_calls made [] behind = []
loop_calls made (connection c ∷ events) behind = accept_calls made ++ loop_calls made events behind
loop_calls made (accept_fails ∷ events) behind = loop_calls made events behind
loop_calls made (sigint ∷ events) behind =
    on_sigint_calls made ++ (later_signals made events ++ behind)

-- Behind the closing of the queues. `left` counts the entries that are still in the response map.
unfoldable pub teardown_calls : ℕ → List Call
unfolding each
teardown_calls left =
    each client_threads join_client
    ++ (each worker_threads join_worker
        ++ (each left free_entry
            ++ (destroy_queue client_queue
                ∷ destroy_queue task_queue
                ∷ destroy_queue response_map
                ∷ destroy_store
                ∷ free_server
                ∷ [])))

-- Behind the loop. `leave` says whether every client that is connected closes its connection: a client
-- thread otherwise stays in `read`, and the main thread in the join of it.
unfoldable pub shutdown_calls : Bool → ℕ → List Call
unfolding teardown_calls
shutdown_calls leave left =
    close_queue client_queue
    ∷ close_queue task_queue
    ∷ close_queue response_map
    ∷ (if leave then teardown_calls left else [])

-- What is behind the creation of the user store.
unfoldable pub serving_calls : Bool → Bool → List Event → ℕ → List Call
unfolding tcp_listen each loop_calls shutdown_calls
serving_calls made leave events left =
    create_store
    ∷ init_queue task_queue
    ∷ init_queue response_map
    ∷ (tcp_listen made
        ++ (each worker_threads start_worker
            ++ (init_queue client_queue
                ∷ (each client_threads start_client
                    ++ loop_calls made events (shutdown_calls leave left)))))

module _ (sql : Sql) where
  abbrev pub behind_start :
      Bool → Bool → List Event → ℕ → Option (ℕ × UserStore sql × ServerState) → List Call × ℕ
  behind_start made leave events left none = (allocate_server ∷ free_server ∷ [], 1)
  behind_start made leave events left (some started) =
      (allocate_server ∷ serving_calls made leave events left, 0)

  -- The calls of `main` and the status it ends with, with the events of the accept loop.
  unfoldable pub main : Start → List Bytes → Disk → Bool → Bool → List Event → ℕ → List Call × ℕ
  unfolding serving_calls
  main s arguments d made leave events left =
      let started = (start_up sql s arguments d).1 in
      if s.allocates_server then behind_start made leave events left started else ([], 1)

-- The server with all its threads.
abbrev full : Bool → Parts
full made = record {
  server = true;
  store = true;
  listening = made;
  tasks = open_queue;
  responses = open_queue;
  clients = open_queue;
  workers = 4;
  client_threads = 4;
}

-- None of the events is the signal.
abbrev pub NoSignal : List Event → Type 0
NoSignal [] = Unit {0}
NoSignal (connection c ∷ events) = NoSignal events
NoSignal (accept_fails ∷ events) = NoSignal events
NoSignal (sigint ∷ events) = ⊥

-- The server behind the joins, with its queues closed.
abbrev joined : Parts
joined = record (full false) {
  tasks = closed_queue;
  responses = closed_queue;
  clients = closed_queue;
  workers = 0;
  client_threads = 0;
}

-- The server's state, before anything in it is there.
abbrev begun : Parts
begun = record no_parts { server = true }
