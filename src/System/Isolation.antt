-- ===== src/System/Isolation.antt =====
-- What a client of the server can be sent from its queue: responses to its own tasks.
use mathlib.Core.List.{perm_middle}
use mathlib.Core.List.Perm
use os_lab.Prelude.{ℕ, ◌+◌, ◌≡◌, ap, Bool, List, ◌∷◌, ◌++◌, ℤ, map, Perm, All, inl, inr}
use os_lab.Priority.{normal}
use os_lab.Task.{
  Task, ClientInfo, CommandType, unknown, upload, download, delete, list, signup, login, quit,
}
use os_lab.Queue.{PriorityItem, Queue, popped, queue_push, queue_pop}
use os_lab.Queue.Insert.{queue_push-added}
use os_lab.Queue.Remove.{popped-Took}
use os_lab.Sql.{Sql}
use os_lab.Responses.{Response, ResponseQueueEntry}
use os_lab.Worker.{Outside, World, handle_task}
use os_lab.Worker.Answers.{Answered, answers, Handled, handle_task-Handled}
use os_lab.Server.{client_inhabited, accept_client, shut_down}
use os_lab.Server.Ids.{
  Fresh, Fresh-perm, Fresh-cons, Fresh-later, Fresh-tail, map_ids, waiting_ids, registered_ids,
}
use os_lab.System.{
  System, Step, accepts, stops, starts, submits, works, receives, ends, Reach, here, next,
}
use os_lab.System.Addressed.{
  Addressed, popped-ForClient, delivered, delivered_ids, put_queue-Addressed, put_queue_ids,
  queue_of-ForClient, registered-Addressed, deregistered,
}

abbrev pub client_ids : List ClientInfo → List ℕ
client_ids clients = map (λ c. c.client_id) clients

module _ (sql : Sql) (cmp : Response → Response → ℤ)
    (cmp_entries : ResponseQueueEntry → ResponseQueueEntry → ℤ)
    (cmp_clients : ClientInfo → ClientInfo → ℤ) where
  -- The map's entries and the clients in service or waiting have ids of their own, the responses in the
  -- map are for the clients of their entries, and each reply went to the client it was for.
  pub record Isolated (s : System sql cmp cmp_entries cmp_clients) : Type 0 where
    pub entries : Fresh (map_ids s.world.resp_queues) s.server.next_client_id
    pub clients :
        Fresh (client_ids s.serving ++ waiting_ids s.server.client_queue) s.server.next_client_id
    pub addressed : All Addressed s.world.resp_queues.items
    pub replied : All (λ p. p.1.client_id ≡ p.0.client_id) s.replies

  waiting_pushed :
      (grows : Bool) (q : Queue ClientInfo) (n fd : ℕ) (others : List ℕ)
      → Fresh (others ++ waiting_ids q) n
      → Fresh
          (others
            ++ waiting_ids
                (queue_push cmp_clients grows q
                  (record { client_id = n; socket_fd = fd })
                  normal).0)
          (n + 1)
  waiting_pushed grows q n fd others f =
      let ci : ClientInfo = record { client_id = n; socket_fd = fd } in
      elim (queue_push-added cmp_clients grows q ci normal) [
        | inl added ↦
            let ids = Perm.map (λ (e : PriorityItem ClientInfo). e.item.client_id) added in
            Fresh-perm _ (n ∷ others ++ waiting_ids q) (n + 1)
              (Perm.trans (Perm.append_left others ids) (perm_middle others (waiting_ids q)))
              (Fresh-cons (others ++ waiting_ids q) n f)
        | inr same ↦ rw same (Fresh-later (others ++ waiting_ids q) n f)
      ]

  client_started :
      (q left : Queue ClientInfo) (ci : ClientInfo) (others : List ClientInfo) (n : ℕ)
      → queue_pop cmp_clients q ≡ popped ci left
      → Fresh (client_ids others ++ waiting_ids q) n
      → Fresh (client_ids (ci ∷ others) ++ waiting_ids left) n
  client_started q left ci others n pop f =
      let (entry, same, took) = popped-Took cmp_clients q ci left pop in
      let ids = Perm.map (λ (e : PriorityItem ClientInfo). e.item.client_id) took.others in
      let ids' : Perm (ci.client_id ∷ waiting_ids left) (waiting_ids q) =
        rw (ap (λ c. c.client_id) same) at ids in
      Fresh-perm _ (client_ids others ++ waiting_ids q) n
        (Perm.trans (Perm.symm (perm_middle (client_ids others) (waiting_ids left)))
          (Perm.append_left (client_ids others) ids'))
        f

  client_ended :
      (ci : ClientInfo) (others serving : List ClientInfo) (waiting : List ℕ) (n : ℕ)
      → Perm (ci ∷ others) serving
      → Fresh (client_ids serving ++ waiting) n
      → Fresh (client_ids others ++ waiting) n
  client_ended ci others serving waiting n same f =
      let ids = Perm.map (λ (c : ClientInfo). c.client_id) same in
      Fresh-tail ci.client_id (client_ids others ++ waiting) n
        (Fresh-perm _ (client_ids serving ++ waiting) n (Perm.append_right waiting ids) f)

  -- The response map behind a task.
  Answered-map :
      (o : Outside) (w after : World sql cmp) (t : Task) (n : ℕ)
      → Answered sql cmp o w after t
      → All Addressed w.resp_queues.items
      → Fresh (map_ids w.resp_queues) n
      → All Addressed after.resp_queues.items × Fresh (map_ids after.resp_queues) n
  Answered-map o w after t n (answers st message is) all f = rw is (
    delivered cmp o.allocates_response o.grows w.resp_queues t.client.client_id st message all,
    rw (delivered_ids cmp o.allocates_response o.grows w.resp_queues t.client.client_id st message)
        f,
  )

  Handled-map :
      (type : CommandType) (o : Outside) (w after : World sql cmp) (t : Task) (n : ℕ)
      → Handled sql cmp type o w after t
      → All Addressed w.resp_queues.items
      → Fresh (map_ids w.resp_queues) n
      → All Addressed after.resp_queues.items × Fresh (map_ids after.resp_queues) n
  Handled-map unknown o w after t n same all f = rw same (all, f)
  Handled-map quit o w after t n same all f = rw same (all, f)
  Handled-map upload o w after t n a all f = Answered-map o w after t n a all f
  Handled-map download o w after t n a all f = Answered-map o w after t n a all f
  Handled-map delete o w after t n a all f = Answered-map o w after t n a all f
  Handled-map list o w after t n a all f = Answered-map o w after t n a all f
  Handled-map signup o w after t n a all f = Answered-map o w after t n a all f
  Handled-map login o w after t n a all f = Answered-map o w after t n a all f

  pub Step-Isolated :
      {s t : System sql cmp cmp_entries cmp_clients}
      → Step sql cmp cmp_entries cmp_clients s t
      → Isolated s
      → Isolated t
  unfolding accept_client shut_down
  Step-Isolated {s} (accepts c running) i = record {
    entries =
        registered_ids cmp_entries c.allocated c.grows_map s.world.resp_queues
          s.server.next_client_id i.entries;
    clients =
        waiting_pushed c.grows_clients s.server.client_queue s.server.next_client_id c.cfd
          (client_ids s.serving) i.clients;
    addressed =
        registered-Addressed cmp_entries c.allocated c.grows_map s.world.resp_queues
          s.server.next_client_id i.addressed;
    replied = i.replied;
  }
  Step-Isolated {s} stops i = record {
    entries = i.entries;
    clients = i.clients;
    addressed = i.addressed;
    replied = i.replied;
  }
  Step-Isolated {s} (starts ci clients pop) i = record {
    entries = i.entries;
    clients =
        client_started s.server.client_queue clients ci s.serving s.server.next_client_id pop
          i.clients;
    addressed = i.addressed;
    replied = i.replied;
  }
  Step-Isolated {s} (submits ci others same allocated grows now line t is) i = record {
    entries = i.entries;
    clients = i.clients;
    addressed = i.addressed;
    replied = i.replied;
  }
  Step-Isolated {s} (works o t tasks pop) i =
      let (addressed, entries) =
        Handled-map t.type o s.world (handle_task sql cmp o s.world t) t s.server.next_client_id
          (handle_task-Handled sql cmp o s.world t) i.addressed i.entries in
      record { entries = entries; clients = i.clients; addressed = addressed; replied = i.replied }
  Step-Isolated {s} (receives ci others same q left r found pop) i =
      let its = queue_of-ForClient s.world.resp_queues.items ci.client_id q i.addressed found in
      let (mine, rest) = popped-ForClient cmp q left r ci.client_id pop its in
      record {
        entries = rw (put_queue_ids ci.client_id left s.world.resp_queues.items) i.entries;
        clients = i.clients;
        addressed =
            put_queue-Addressed ci.client_id left s.world.resp_queues.items rest i.addressed;
        replied = (mine, i.replied);
      }
  Step-Isolated {s} (ends ci others same) i =
      let (addressed, entries) =
        deregistered s.world.resp_queues ci.client_id s.server.next_client_id i.addressed
          i.entries in
      record {
        entries = entries;
        clients =
            client_ended ci others s.serving (waiting_ids s.server.client_queue)
              s.server.next_client_id same i.clients;
        addressed = addressed;
        replied = i.replied;
      }

  -- Where a worker carries out each task in one step, so that no client's entry is freed between the two
  -- critical sections of send_response: in every order of such steps and the steps of the other
  -- threads, from a state that has it, no two entries of the response map and no two clients have the
  -- same id, every response in the map is for the client of its entry, and every response that was
  -- written to a client is one for this client.
  pub Reach-Isolated :
      {start s : System sql cmp cmp_entries cmp_clients}
      → Isolated start
      → Reach sql cmp cmp_entries cmp_clients start s
      → Isolated s
  Reach-Isolated i here = i
  Reach-Isolated i (next reach step) = Step-Isolated step (Reach-Isolated i reach)
