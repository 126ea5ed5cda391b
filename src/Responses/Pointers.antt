-- ===== src/Responses/Pointers.antt =====
-- The pointer to a client's entry that send_response of src/worker.c finds under the mutex of the response
-- map and uses behind it, while deregister_client_response_queue of src/main.c frees the entry: one
-- client, its thread of src/client.c, and the workers with its tasks.
use os_lab.Prelude.{
  ℕ, ◌+◌, ◌-◌, ◌<◌, ◌≤◌, ◌≡◌, Bool, true, false, ℤ, arith, inl, inr, ◌⊎◌, refl, length-perm,
}
use os_lab.Priority.{normal}
use os_lab.Queue.{Queue, queue_size, queue_init, queue_close, popped, queue_push, queue_pop}
use os_lab.Queue.Insert.{queue_push-added}
use os_lab.Queue.Remove.{popped-Took}
use os_lab.Responses.{Response, response_inhabited}

-- Where the client's thread is: it reads a line, it waits for the response to its task, it has taken
-- the entry out of the map, and it has freed it.
pub data Phase : Type 0 where
  reading awaiting unmapped freed : Phase

pub record Entry : Type 0 where
  pub phase : Phase
  -- Tasks of the client for which no worker has searched the map yet.
  pub tasks : ℕ
  -- Workers that have found the entry, and have not locked its mutex yet.
  pub sending : ℕ
  pub queue : Queue Response
  -- Whether the thread ever went on without a response, by the timeout or an error of the wait.
  pub gave_up : Bool

abbrev pub registered : Entry
registered = record { phase = reading; tasks = 0; sending = 0; queue = queue_init; gave_up = false }

module _ (cmp : Response → Response → ℤ) where
  pub data Step (e f : Entry) : Type 0 where
    -- The thread pushes a task, which may fail, and waits.
    submits :
        (pushed : ℕ)
        → pushed ≤ 1
        → e.phase ≡ reading
        → f ≡ record e { phase = awaiting; tasks = e.tasks + pushed }
        → Step e f
    -- A worker finds the entry for its response, which is there until it is taken out of the map.
    finds :
        0 < e.tasks
        → (e.phase ≡ reading) ⊎ (e.phase ≡ awaiting)
        → f ≡ record e { tasks = e.tasks - 1; sending = e.sending + 1 }
        → Step e f
    -- It does not find it, or gets no memory for the response.
    drops : 0 < e.tasks → f ≡ record e { tasks = e.tasks - 1 } → Step e f
    -- It locks the mutex of the entry, and pushes the response.
    pushes :
        0 < e.sending
        → (grows : Bool) (r : Response)
        → f
          ≡ record e { sending = e.sending - 1; queue = (queue_push cmp grows e.queue r normal).0 }
        → Step e f
    -- The thread takes a response.
    takes :
        (r : Response) (left : Queue Response)
        → e.phase ≡ awaiting
        → queue_pop cmp e.queue ≡ popped r left
        → f ≡ record e { phase = reading; queue = left }
        → Step e f
    -- The wait ends over an empty queue.
    gives_up :
        e.phase ≡ awaiting
        → queue_size e.queue ≡ 0
        → f ≡ record e { phase = reading; gave_up = true }
        → Step e f
    -- The session ends: the entry is taken out of the map, and freed behind it.
    unmaps : e.phase ≡ reading → f ≡ record e { phase = unmapped } → Step e f
    frees :
        e.phase ≡ unmapped → f ≡ record e { phase = freed; queue = queue_close e.queue } → Step e f

  pub data Reach : Entry → Type 0 where
    here : Reach registered
    next : {e f : Entry} → Reach e → Step e f → Reach f

  -- How many responses the thread is still to take.
  abbrev awaited : Phase → ℕ
  awaited awaiting = 1
  awaited _ = 0

  -- A thread that never gave up has at most the response on its way that it waits for.
  abbrev OnItsWay : Entry → Type 0
  OnItsWay e = (e.gave_up ≡ true) ⊎ (e.tasks + e.sending + queue_size e.queue ≤ awaited e.phase)

  queue_size-push :
      (grows : Bool) (q : Queue Response) (r : Response)
      → queue_size (queue_push cmp grows q r normal).0 ≤ queue_size q + 1
  queue_size-push grows q r = elim (queue_push-added cmp grows q r normal) [
    | inl added ↦ omega (arith, length-perm added)
    | inr same ↦ rw same (omega arith)
  ]

  queue_size-pop :
      (q left : Queue Response) (r : Response)
      → queue_pop cmp q ≡ popped r left
      → queue_size left + 1 ≡ queue_size q
  queue_size-pop q left r pop =
      let (entry, same, took) = popped-Took cmp q r left pop in
      omega (arith, length-perm took.others)

  gave_up_stays : {e f : Entry} → Step e f → e.gave_up ≡ true → f.gave_up ≡ true
  gave_up_stays (submits k small at is) g = rw is g
  gave_up_stays (finds some_left at is) g = rw is g
  gave_up_stays (drops some_left is) g = rw is g
  gave_up_stays (pushes some_left grows r is) g = rw is g
  gave_up_stays (takes r left at pop is) g = rw is g
  gave_up_stays (gives_up at empty is) g = rw is refl
  gave_up_stays (unmaps at is) g = rw is g
  gave_up_stays (frees at is) g = rw is g

  Step-OnItsWay : {e f : Entry} → Step e f → OnItsWay e → OnItsWay f
  Step-OnItsWay st (inl gave_up) = inl (gave_up_stays st gave_up)
  Step-OnItsWay (submits k small at is) (inr few) = rw is (inr (ground arith))
  Step-OnItsWay (finds some_left at is) (inr few) = rw is (inr (ground arith))
  Step-OnItsWay (drops some_left is) (inr few) = rw is (inr (omega arith))
  Step-OnItsWay {e} (pushes some_left grows r is) (inr few) =
      rw is (inr (omega (arith, queue_size-push grows e.queue r)))
  Step-OnItsWay {e} (takes r left at pop is) (inr few) =
      rw is (inr (ground (arith, queue_size-pop e.queue left r pop)))
  Step-OnItsWay (gives_up at empty is) (inr few) = rw is (inl refl)
  Step-OnItsWay (unmaps at is) (inr few) = rw is (inr (ground arith))
  Step-OnItsWay (frees at is) (inr few) = rw is (inr (ground arith))

  Reach-OnItsWay : {e : Entry} → Reach e → OnItsWay e
  Reach-OnItsWay here = inr (omega arith)
  Reach-OnItsWay (next r st) = Step-OnItsWay st (Reach-OnItsWay r)

  -- In every order of the steps of a client's thread and of the workers for its tasks: once the entry is
  -- taken out of the map, and later when it is freed, no task of the client is left, no worker holds a
  -- pointer to the entry, and no response is in its queue, if the thread never gave up a wait.
  pub Reach-settled :
      {e : Entry}
      → Reach e
      → e.gave_up ≡ false
      → (e.phase ≡ unmapped) ⊎ (e.phase ≡ freed)
      → (e.tasks ≡ 0) × (e.sending ≡ 0) × (queue_size e.queue ≡ 0)
  Reach-settled r patient at = elim (Reach-OnItsWay r) [
    | inl gave_up ↦ absurd (ground arith)
    | inr few ↦ ground arith
  ]
