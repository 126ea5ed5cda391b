-- ===== src/Server/Parts.antt =====
-- The parts that main of src/main.c puts up and takes down: the server's state, its queues, the user
-- store, the socket and the threads. A call that a part is not ready for is a fault, `none`.
use os_lab.Prelude.{
  ℕ, ◌+◌, ◌-◌, Bool, true, false, not, ◌&&◌, List, [], ◌∷◌, Option, none, some, ltb, ◌==◌,
}

pub data QueueName : Type 0 where
  task_queue response_map client_queue : QueueName

pub data Stage : Type 0 where
  absent open_queue closed_queue : Stage

pub data Call : Type 0 where
  allocate_server free_server create_store destroy_store : Call
  init_queue close_queue destroy_queue : QueueName → Call
  open_socket shut_socket register_client : Call
  start_worker join_worker start_client join_client : Call
  -- An entry that the clients have left in the response map.
  free_entry : Call

pub record Parts : Type 0 where
  pub server : Bool
  pub store : Bool
  pub listening : Bool
  pub tasks : Stage
  pub responses : Stage
  pub clients : Stage
  pub workers : ℕ
  pub client_threads : ℕ

abbrev pub no_parts : Parts
no_parts = record {
  server = false;
  store = false;
  listening = false;
  tasks = absent;
  responses = absent;
  clients = absent;
  workers = 0;
  client_threads = 0;
}

abbrev pub is_there : Stage → Bool
is_there absent = false
is_there _ = true

abbrev pub is_closed : Stage → Bool
is_closed closed_queue = true
is_closed _ = false

abbrev need : Bool → Parts → Option Parts
need true p = some p
need false p = none

abbrev pub stage : QueueName → Parts → Stage
stage task_queue p = p.tasks
stage response_map p = p.responses
stage client_queue p = p.clients

abbrev pub with_stage : QueueName → Stage → Parts → Parts
with_stage task_queue s p = record p { tasks = s }
with_stage response_map s p = record p { responses = s }
with_stage client_queue s p = record p { clients = s }

-- No thread runs that works on the server's state.
abbrev pub quiet : Parts → Bool
quiet p = p.workers == 0 && p.client_threads == 0

-- A thread needs all that it works on. A join comes to an end only behind the closing of the queue that
-- the thread sleeps on. Nothing is taken down while a thread can still use it, or twice.
abbrev pub call : Call → Parts → Option Parts
call allocate_server p = need (not p.server) (record p { server = true })
call free_server p =
    need
      (p.server && not p.store && not (is_there p.tasks) && not (is_there p.responses) && quiet p)
      (record p { server = false })
call create_store p = need (p.server && not p.store) (record p { store = true })
call destroy_store p = need (p.store && quiet p) (record p { store = false })
call (init_queue q) p = need (p.server && not (is_there (stage q p))) (with_stage q open_queue p)
call (close_queue q) p = need (is_there (stage q p)) (with_stage q closed_queue p)
call (destroy_queue q) p = need (is_there (stage q p) && quiet p) (with_stage q absent p)
call open_socket p = need (not p.listening) (record p { listening = true })
call shut_socket p = need p.listening (record p { listening = false })
call register_client p = need (p.listening && is_there p.responses && is_there p.clients) p
call start_worker p =
    need (is_there p.tasks && is_there p.responses && p.store)
      (record p { workers = p.workers + 1 })
call join_worker p =
    need (is_closed p.tasks && ltb 0 p.workers) (record p { workers = p.workers - 1 })
call start_client p =
    need (is_there p.clients && is_there p.tasks && is_there p.responses)
      (record p { client_threads = p.client_threads + 1 })
call join_client p =
    need (is_closed p.clients && ltb 0 p.client_threads)
      (record p { client_threads = p.client_threads - 1 })
call free_entry p = need (is_there p.responses && quiet p) p

unfoldable pub run : List Call → Parts → Option Parts
run [] p = some p
run (c ∷ calls) p = elim (call c p) [ none ↦ none | some p' ↦ run calls p' ]
