-- ===== src/Client/Tests.antt =====
-- Runs of the client thread of src/client.c, and its theorems at a line, at waits and at a connection.
use os_lab.Prelude.{
  Perm, ℤ, pos, map, ℕ, zero, suc, length, ap, ◌≡◌, refl, true, false, List, [], ◌∷◌, ◌++◌, Option,
  some, Bytes, codes, arith, inl, inr,
}
use os_lab.Priority.{normal, high}
use os_lab.Task.{ClientInfo, login}
use os_lab.Queue.{Queue, queue_init, popped, queue_pop}
use os_lab.Responses.{Response, resp_ok, response, response_inhabited}
use os_lab.Responses.Tests.{ties}
use os_lab.TaskQueue.Tests.{task}
use os_lab.Scan.{scan_words}
use os_lab.Client.Line.{recv_line}
use os_lab.Client.Line.Laws.{Received, recv_line-Received}
use os_lab.Client.Command.{pushes, quits, starts_with, parse}
use os_lab.Client.Wait.{
  Code, zero_code, Wake, timed_out, interrupted, reply_text, answer, wait_loop,
}
use os_lab.Client.Wait.Laws.{Looked, Told, answer-Told, answer-filled}
use os_lab.Client.Session.{Around}
use os_lab.Client.Thread.{Peer, Stops, returned, deregister_all, client_thread, client_thread-drain}
use os_lab.Queue.History.{held}
use os_lab.Server.{client_inhabited}

recv_line_of_two :
    recv_line 8 (codes "xxxxxxxx") (codes "LIST\nQ")
    ≡ (codes "LIST" ++ 0 ∷ codes "xxx", some 4, codes "Q")
unfolding recv_line
recv_line_of_two = refl

recv_line-Received_example :
    Received 8
      (codes "xxxxxxxx")
      (codes "LIST\nQ")
      (recv_line 8 (codes "xxxxxxxx") (codes "LIST\nQ"))
recv_line-Received_example =
    recv_line-Received 8 (codes "xxxxxxxx") (codes "LIST\nQ") (omega arith) refl

parse_quit : parse (task login high 1) (codes "QUIT now") ≡ quits
unfolding parse starts_with
parse_quit = refl

parse_login :
    parse (task login normal 1) (codes "LOGIN  bob secret extra")
    ≡ pushes (record (task login high 1) { username = codes "bob"; password = codes "secret" })
unfolding parse starts_with scan_words
parse_login = refl

abbrev idle : Queue Response
idle = queue_init

abbrev stale : Queue Response
stale = record {
  items = record { item = response 1 resp_ok (some (codes "old")); priority = normal } ∷ [];
  capacity = 16;
  closed = false;
}

-- A signal that comes too early, and then the timeout.
abbrev wakes : List Wake
wakes =
    record { rc = interrupted; past = false; queue = idle }
    ∷ record { rc = timed_out; past = true; queue = idle }
    ∷ []

answer_late : answer ties true wakes idle ≡ some (idle, some (codes "ERR Request timed out\n"))
unfolding answer wait_loop
answer_late = refl

answer-Told_example :
    (result : Queue Response × Option Bytes) × (answer ties true wakes idle ≡ some result)
    × (q' : Queue Response) × (rc : Code) × Looked wakes idle zero_code q' rc
    × Told ties true q' rc result
answer-Told_example = answer-Told ties true wakes idle (inr (inl refl))

answer-filled_example :
    (r : Response) × (left : Queue Response) × (queue_pop ties stale ≡ popped r left)
    × (answer ties true wakes stale ≡ some (left, some (reply_text r)))
answer-filled_example = answer-filled ties true wakes stale (omega arith)

abbrev client : ClientInfo
client = record { client_id = 1; socket_fd = 5 }

abbrev around : Around
around = record {
  allocated = true;
  now = record { tv_sec = 9; tv_nsec = 0 };
  grows = true;
  task_queue = queue_init;
  responses = some idle;
  wakes = wakes;
  allocates_reply = true;
}

zeros : ℕ → Bytes
zeros zero = []
zeros (suc n) = 0 ∷ zeros n

length-zeros : (n : ℕ) → length (zeros n) ≡ n
unfolding zeros
length-zeros zero = refl
length-zeros (suc n) = ap suc (length-zeros n)

clients_tie : ClientInfo → ClientInfo → ℤ
clients_tie a b = pos 0

abbrev peer : Peer
peer = record { arounds = around ∷ around ∷ around ∷ []; buf = zeros 512; stream = codes "X\n" }

peer-Stops : Stops peer
peer-Stops =
    let timed = inr (inl refl) in
    record { size = length-zeros 512; short = omega arith; timed = (timed, (timed, (timed, tt))) }

abbrev one_client : Queue ClientInfo
one_client = record {
  items = record { item = client; priority = normal } ∷ [];
  capacity = 16;
  closed = true;
}

client_thread-drain_example :
    (clients : List ClientInfo) × Perm clients (held one_client)
    × (client_thread ties clients_tie (λ ci. peer) one_client queue_init ≡ record {
      resp_map = deregister_all clients queue_init;
      closed = map (λ ci. ci.socket_fd) clients;
      end = returned;
    })
client_thread-drain_example =
    client_thread-drain ties clients_tie (λ ci. peer) one_client queue_init refl (λ ci. peer-Stops)
