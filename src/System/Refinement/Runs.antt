-- ===== src/System/Refinement/Runs.antt =====
-- What each step of the server does to its response map, seen as the abstract map.
use mathlib.Core.List.{Nodup}
use os_lab.Prelude.{ℕ, Bytes, ◌≡◌, refl, ap, ◌∙◌, true, none, some, ℤ, arith}
use os_lab.Task.{
  Task, ClientInfo, CommandType, unknown, upload, download, delete, list, signup, login, quit,
}
use os_lab.Sql.{Sql}
use os_lab.Responses.{Response, ResponseStatus, ResponseQueueEntry}
use os_lab.Responses.Lookup.{ids_of}
use os_lab.Worker.{Outside, World, handle_task}
use os_lab.Worker.Answers.{Answered, answers, Handled, handle_task-Handled}
use os_lab.Server.{accept_client, shut_down}
use os_lab.System.{System, Step, accepts, stops, starts, submits, works, receives, ends, Reach}
use os_lab.System.Isolation.{Isolated, Reach-Isolated}
use os_lab.System.Refinement.{
  View, view, updated, taken_back, registers, responds, leaves, deregisters, shuts, done, meaning,
}
use os_lab.System.Refinement.Laws.{apply-Refines}

module _ (sql : Sql) (cmp : Response → Response → ℤ)
    (cmp_entries : ResponseQueueEntry → ResponseQueueEntry → ℤ)
    (cmp_clients : ClientInfo → ClientInfo → ℤ) where
  abbrev Server : Type 0
  Server = System sql cmp cmp_entries cmp_clients

  -- The second view has for every client what the first has.
  abbrev pub Becomes : View → View → Type 0
  Becomes v w = (other : ℕ) → w other ≡ v other

  abbrev pub viewed : Server → View
  viewed s = view s.world.resp_queues

  -- One response to the task's client, and no change for any other client.
  abbrev pub Responded : Outside → Task → View → View → Type 0
  Responded o t v w =
      (st : ResponseStatus) × (message : Bytes) × Becomes
        (meaning cmp cmp_entries
          (responds o.allocates_response o.grows t.client.client_id st (some message)) true v)
        w

  -- A quit and a command of no known type are not answered.
  abbrev pub Worked : CommandType → Outside → Task → View → View → Type 0
  Worked unknown o t v w = Becomes v w
  Worked quit o t v w = Becomes v w
  Worked upload o t v w = Responded o t v w
  Worked download o t v w = Responded o t v w
  Worked delete o t v w = Responded o t v w
  Worked list o t v w = Responded o t v w
  Worked signup o t v w = Responded o t v w
  Worked login o t v w = Responded o t v w

  -- What a step does to the abstract map.
  abbrev pub Changes : {s t : Server} → Step sql cmp cmp_entries cmp_clients s t → Type 0
  Changes {s} {t} (accepts c running) =
      let op = registers c.allocated c.grows_map s.server.next_client_id in
      Becomes (meaning cmp cmp_entries op (done cmp cmp_entries op s.world.resp_queues) (viewed s))
        (viewed t)
  Changes {s} {t} stops = Becomes (viewed s) (viewed t)
  Changes {s} {t} (starts ci clients pop) = Becomes (viewed s) (viewed t)
  Changes {s} {t} (submits ci others same allocated grows now line task is) =
      Becomes (viewed s) (viewed t)
  Changes {s} {t} (works o task tasks pop) = Worked task.type o task (viewed s) (viewed t)
  Changes {s} {t} (receives ci others same q left r found pop) =
      Becomes (updated (viewed s) ci.client_id (some left)) (viewed t)
  Changes {s} {t} (ends ci others same) = Becomes (updated (viewed s) ci.client_id none) (viewed t)

  Answered-Responded :
      (o : Outside) (w after : World sql cmp) (t : Task)
      → Nodup (ids_of w.resp_queues.items)
      → Answered sql cmp o w after t
      → Responded o t (view w.resp_queues) (view after.resp_queues)
  Answered-Responded o w after t once (answers st message is) =
      let op = responds o.allocates_response o.grows t.client.client_id st (some message) in
      (
        st,
        message,
        λ other.
            ap (λ m. view m other) is
            ∙ (apply-Refines cmp cmp_entries w.resp_queues op tt once).0 other,
      )

  Handled-Worked :
      (type : CommandType) (o : Outside) (w after : World sql cmp) (t : Task)
      → Nodup (ids_of w.resp_queues.items)
      → Handled sql cmp type o w after t
      → Worked type o t (view w.resp_queues) (view after.resp_queues)
  Handled-Worked unknown o w after t once same = λ other. ap (λ x. view x.resp_queues other) same
  Handled-Worked quit o w after t once same = λ other. ap (λ x. view x.resp_queues other) same
  Handled-Worked upload o w after t once a = Answered-Responded o w after t once a
  Handled-Worked download o w after t once a = Answered-Responded o w after t once a
  Handled-Worked delete o w after t once a = Answered-Responded o w after t once a
  Handled-Worked list o w after t once a = Answered-Responded o w after t once a
  Handled-Worked signup o w after t once a = Answered-Responded o w after t once a
  Handled-Worked login o w after t once a = Answered-Responded o w after t once a

  Step-Changes :
      {s t : Server} (step : Step sql cmp cmp_entries cmp_clients s t)
      → Isolated sql cmp cmp_entries cmp_clients s
      → Changes step
  unfolding accept_client shut_down
  Step-Changes {s} (accepts c running) i =
      let id = s.server.next_client_id in
      (apply-Refines cmp cmp_entries s.world.resp_queues (registers c.allocated c.grows_map id)
        (λ m. absurd (omega (arith, i.entries.below id m))) i.entries.once).0
  Step-Changes {s} stops i =
      (apply-Refines cmp cmp_entries s.world.resp_queues shuts tt i.entries.once).0
  Step-Changes (starts ci clients pop) i = λ other. refl
  Step-Changes (submits ci others same allocated grows now line t is) i = λ other. refl
  Step-Changes {s} (works o t tasks pop) i =
      Handled-Worked t.type o s.world (handle_task sql cmp o s.world t) t i.entries.once
        (handle_task-Handled sql cmp o s.world t)
  Step-Changes {s} (receives ci others same q left r found pop) i = λ other.
      (apply-Refines cmp cmp_entries s.world.resp_queues (leaves ci.client_id left) tt
          i.entries.once).0
        other
      ∙ ap (λ old. updated (viewed s) ci.client_id (taken_back left old) other) found
  Step-Changes {s} (ends ci others same) i =
      (apply-Refines cmp cmp_entries s.world.resp_queues (deregisters ci.client_id) tt
        i.entries.once).0

  -- In every state that a server with ids of their own reaches, each step does to the map from clients
  -- to queues, as the searches in the array see it, what that step means: an accepted connection
  -- registers an empty queue under its new id if the registration succeeded; a worker's task adds
  -- one response to the queue of the task's own client, if that client is still in the map and there
  -- is memory for it, and none if the task is a quit or of no known type; a client thread that takes a response leaves the rest of that client's queue; a
  -- client that ends takes its own queue out of the map; and no step changes what another client
  -- has. A worker's task is one step here.
  pub Reach-view :
      {start s t : Server}
      → Isolated sql cmp cmp_entries cmp_clients start
      → Reach sql cmp cmp_entries cmp_clients start s
      → (step : Step sql cmp cmp_entries cmp_clients s t) → Changes step
  Reach-view i reach step =
      Step-Changes step (Reach-Isolated sql cmp cmp_entries cmp_clients i reach)
