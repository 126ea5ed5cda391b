-- ===== src/Client/Session.antt =====
-- client_thread_main of src/client.c: all that a client thread does with one connection, line by line.
pub mod Laws
pub mod Lines
use os_lab.Prelude.{
  ℕ, suc, ◌+◌, Bool, true, false, List, [], ◌∷◌, Option, none, some, Bytes, codes, ℤ, ltb,
  if◌then◌else◌,
}
use os_lab.Task.{Task, ClientInfo, Timespec, task_compare_priority}
use os_lab.TaskQueue.{task_inhabited}
use os_lab.Queue.{Queue, queue_push}
use os_lab.Responses.{Response}
use os_lab.Client.Line.{recv_line, c_string}
use os_lab.Client.Command.{Parsed, pushes, quits, skips, parse_command}
use os_lab.Client.Wait.{Wake, answer}

-- What a line meets: how the calls go, the task queue and the client's queue of responses as the other
-- threads have left them, and the wakes of the wait. `responses` is `none` where the client has no
-- entry in the response map. Only this thread and the accept loop add or remove the entry.
pub record Around : Type 0 where
  pub allocated : Bool
  pub now : Timespec
  pub grows : Bool
  pub task_queue : Queue Task
  pub responses : Option (Queue Response)
  pub wakes : List Wake
  pub allocates_reply : Bool

-- How the loop over the lines goes on. `hangs` says that the thread waits behind the wakes given.
pub data Next : Type 0 where
  continues leaves hangs : Next

-- What a line leads to.
pub record Turn : Type 0 where
  pub task_queue : Queue Task
  pub responses : Option (Queue Response)
  pub sent : Option Bytes
  pub next : Next

-- What is written when the task cannot be allocated.
abbrev no_memory : Bool → Option Bytes
no_memory true = none
no_memory false = some (codes "Error: Failed to allocate task\n")

abbrev pub still : Around → Option Bytes → Next → Turn
still a sent next = record {
  task_queue = a.task_queue;
  responses = a.responses;
  sent = sent;
  next = next;
}

-- The task queue behind the push, whether or not the push succeeded.
abbrev pub submitted : Around → Task → Queue Task
submitted a t = (queue_push task_compare_priority a.grows a.task_queue t t.priority).0

-- Not `r <= 0`.
abbrev pub is_line : Option ℕ → Bool
is_line none = false
is_line (some n) = ltb 0 n

module _ (cmp : Response → Response → ℤ) where
  abbrev pub told : Around → Task → Option (Queue Response × Option Bytes) → Turn
  told a t none = record {
    task_queue = submitted a t;
    responses = a.responses;
    sent = none;
    next = hangs;
  }
  told a t (some (q, sent)) = record {
    task_queue = submitted a t;
    responses = some q;
    sent = sent;
    next = continues;
  }

  -- Behind the push: the search for the client's entry, and the wait.
  abbrev pub await : Around → Task → Option (Queue Response) → Turn
  await a t none = record {
    task_queue = submitted a t;
    responses = none;
    sent = none;
    next = leaves;
  }
  await a t (some q) = told a t (answer cmp a.allocates_reply a.wakes q)

  abbrev pub turn : Around → Parsed → Turn
  turn a skips = still a (no_memory a.allocated) continues
  turn a quits = still a none leaves
  turn a (pushes t) = await a t a.responses

  unfoldable pub handle_line : Around → ClientInfo → Bytes → Turn
  unfolding answer parse_command queue_push
  handle_line a client line = turn a (parse_command a.allocated a.now client line)

  -- The lines of one connection. `ended` says that the loop was left: the socket is closed and the
  -- client's response queue deregistered.
  pub record Served : Type 0 where
    pub turns : List Turn
    pub ended : Bool

  abbrev pub over : List Turn → Served
  over turns = record { turns = turns; ended = true }

  abbrev pub and_then : Turn → Served → Served
  and_then t more = elim t.next [
    | continues ↦ record { turns = t ∷ more.turns; ended = more.ended }
    | leaves ↦ over (t ∷ [])
    | hangs ↦ record { turns = t ∷ []; ended = false }
  ]

  -- The loop, for as many lines as `arounds` has. `stream` is all that the peer still sends.
  unfoldable pub serve : List Around → ClientInfo → (buf stream : Bytes) → Served
  unfolding handle_line recv_line
  serve [] client buf stream = record { turns = []; ended = false }
  serve (a ∷ arounds) client buf stream =
      let (line, r, rest) = recv_line 512 buf stream in
      let more = serve arounds client line rest in
      let t = handle_line a client (c_string line) in if is_line r then and_then t more else over []
