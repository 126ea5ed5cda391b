-- ===== src/Client/Thread.antt =====
-- The outer loop of client_thread_main of src/client.c: one thread that takes clients from the queue until it
-- gets NULL.
use os_lab.Prelude.{
  ℕ, zero, suc, ◌+◌, ◌<◌, ◌≡◌, refl, ap, ◌∙◌, Bool, true, List, [], ◌∷◌, Bytes, ℤ, length, All, map,
  Perm, arith, inl, inr, Bool-cases, ltb, length-perm, if◌then◌else◌,
}
use os_lab.Task.{ClientInfo}
use os_lab.Queue.{Queue, queue_size, Pop, waits, finished, popped, queue_pop}
use os_lab.Queue.Remove.{queue_pop_takes, queue_pop_empty}
use os_lab.Queue.Drain.{drain, drain_loop, drain-Perm}
use os_lab.Queue.History.{held}
use os_lab.Responses.{Response, ResponseQueueEntry, deregister_client_response_queue}
use os_lab.Server.{client_inhabited}
use os_lab.Client.Wait.Laws.{ReachesTimeout}
use os_lab.Client.Session.{Around, serve}
use os_lab.Client.Session.Laws.{serve-ended}

-- What a client sends until it closes its connection (while it is connected and silent, `read` blocks,
-- and the thread stands where it is), how the calls and waits go for its lines, and what the line buffer
-- holds before.
pub record Peer : Type 0 where
  pub arounds : List Around
  pub buf : Bytes
  pub stream : Bytes

-- How the loop stands when it can go no further.
pub data End : Type 0 where
  returned waiting serving out_of_fuel : End

-- The response map, the sockets that were closed, and how the loop stands.
pub record Done : Type 0 where
  pub resp_map : Queue ResponseQueueEntry
  pub closed : List ℕ
  pub end : End

abbrev stopped : Queue ResponseQueueEntry → End → Done
stopped m end = record { resp_map = m; closed = []; end = end }

-- The map without the entries of the clients.
pub deregister_all : List ClientInfo → Queue ResponseQueueEntry → Queue ResponseQueueEntry
deregister_all [] m = m
deregister_all (ci ∷ clients) m =
    deregister_all clients (deregister_client_response_queue m ci.client_id)

-- A peer that closes its connection behind what it sends, whose waits come to their timeout at the latest, and the buffer.
pub record Stops (p : Peer) : Type 0 where
  pub size : length p.buf ≡ 512
  pub short : length p.stream < length p.arounds
  pub timed : All (λ a. ReachesTimeout a.wakes) p.arounds

abbrev all_done : List ClientInfo → Queue ResponseQueueEntry → Done
all_done clients m = record {
  resp_map = deregister_all clients m;
  closed = map (λ ci. ci.socket_fd) clients;
  end = returned;
}

module _ (cmp : Response → Response → ℤ) (cmp_clients : ClientInfo → ClientInfo → ℤ)
    (meet : ClientInfo → Peer) where
  -- The lines of a client, and whether its session ends.
  abbrev session_ends : ClientInfo → Bool
  session_ends ci = (serve cmp (meet ci).arounds ci (meet ci).buf (meet ci).stream).ended

  -- The end of a session: the socket is closed, and the client's entry goes.
  abbrev behind_session :
      (Queue ResponseQueueEntry → Done) → Queue ResponseQueueEntry → ClientInfo → Done
  behind_session go_on m ci =
      let rest = go_on (deregister_client_response_queue m ci.client_id) in
      record rest { closed = ci.socket_fd ∷ rest.closed }

  abbrev client_next :
      (Queue ClientInfo → Queue ResponseQueueEntry → Done)
      → Queue ResponseQueueEntry
      → Pop ClientInfo
      → Done
  client_next go_on m waits = stopped m waiting
  client_next go_on m finished = stopped m returned
  client_next go_on m (popped ci left) =
      if session_ends ci then behind_session (go_on left) m ci else stopped m serving

  -- A client's bytes end where it closes its connection. One that stays connected and sends nothing
  -- keeps its thread in `read`, and has no round here.
  pub client_loop : ℕ → Queue ClientInfo → Queue ResponseQueueEntry → Done
  client_loop zero q m = stopped m out_of_fuel
  client_loop (suc fuel) q m = client_next (client_loop fuel) m (queue_pop cmp_clients q)

  -- One round for each client that waits, and one more.
  unfoldable pub client_thread : Queue ClientInfo → Queue ResponseQueueEntry → Done
  unfolding client_loop queue_pop serve deregister_client_response_queue
  client_thread q m = client_loop (queue_size q + 1) q m

  served : (ci : ClientInfo) → Stops (meet ci) → session_ends ci ≡ true
  served ci s =
      serve-ended cmp (meet ci).arounds ci (meet ci).buf (meet ci).stream s.size s.short s.timed

  client_loop-drain :
      (fuel : ℕ) (q : Queue ClientInfo) (m : Queue ResponseQueueEntry)
      → queue_size q < fuel
      → q.closed ≡ true
      → ((ci : ClientInfo) → Stops (meet ci))
      → client_loop fuel q m ≡ all_done (drain_loop cmp_clients fuel q) m
  unfolding client_loop drain_loop deregister_all
  client_loop-drain zero q m short closed stop = absurd (omega arith)
  client_loop-drain (suc fuel) q m short closed stop = elim (Bool-cases (ltb 0 (queue_size q))) [
    | inl more ↦
        let (entry, r, took) = queue_pop_takes cmp_clients q (ground arith) in
        let smaller = length-perm took.others in
        let after = deregister_client_response_queue m entry.item.client_id in
        rw (took.returned, drain_loop, served entry.item (stop entry.item))
          (ap (λ (d : Done). record d { closed = entry.item.socket_fd ∷ d.closed })
            (client_loop-drain fuel r after (omega arith) (took.same_closed ∙ closed) stop))
    | inr none_left ↦
        let empty : queue_size q ≡ 0 = ground arith in
        rw ((queue_pop_empty cmp_clients q).1.1 (empty, closed), drain_loop) refl
  ]

  -- Once the queue of clients is closed, a client thread whose clients all close their connection at
  -- some time serves a list of clients in which every client that still waits stands once and no
  -- other: it closes the socket of each, removes its entry from the response map, and then returns.
  pub client_thread-drain :
      (q : Queue ClientInfo) (m : Queue ResponseQueueEntry)
      → q.closed ≡ true
      → ((ci : ClientInfo) → Stops (meet ci))
      → (clients : List ClientInfo) × Perm clients (held q)
        × (client_thread q m ≡ all_done clients m)
  unfolding client_thread drain
  client_thread-drain q m closed stop = (
    drain cmp_clients q,
    drain-Perm cmp_clients q,
    client_loop-drain (queue_size q + 1) q m (omega arith) closed stop,
  )
