-- ===== src/Responses.antt =====
-- The response map: a queue of entries, one for each client, each with the client's queue of
-- responses. send_response of src/worker.c, and register_client_response_queue and
-- deregister_client_response_queue of src/main.c. The comparison that the queues apply to responses
-- and to entries, which the source reads as tasks, is a parameter. A pointer to an entry stands for
-- the entry, which the map holds once.
pub mod Delivery
pub mod Removal
pub mod Lookup
pub mod Wakeup
pub mod Pointers
pub mod Tests
use os_lab.Prelude.{
  ℕ, zero, suc, ◌+◌, ◌-◌, Bool, true, false, List, [], ◌∷◌, Option, none, some, Bytes, ℤ, strncpy,
  Inhabited, get!, set, take, length, ltb, ◌==◌, if◌then◌else◌,
}
use os_lab.Priority.{normal}
use os_lab.Queue.{PriorityItem, item_inhabited, Queue, queue_size, queue_init, queue_push}

pub data ResponseStatus : Type 0 where
  resp_ok resp_err : ResponseStatus

pub record Response : Type 0 where
  pub client_id : ℕ
  pub status : ResponseStatus
  pub message : Bytes
  pub filepath : Bytes
  pub size : ℕ

pub record ResponseQueueEntry : Type 0 where
  pub client_id : ℕ
  pub queue : Queue Response

instance abbrev pub response_inhabited : Inhabited Response
response_inhabited = record {
  default = record { client_id = 0; status = resp_ok; message = []; filepath = []; size = 0 };
}

instance abbrev pub entry_inhabited : Inhabited ResponseQueueEntry
entry_inhabited = record { default = record { client_id = 0; queue = queue_init } }

-- The zeroed response, with what `send_response` writes into it. A NULL message is `none`.
abbrev pub response : ℕ → ResponseStatus → Option Bytes → Response
response client_id st none = record {
  client_id = client_id;
  status = st;
  message = [];
  filepath = [];
  size = 0;
}
response client_id st (some msg) = record {
  client_id = client_id;
  status = st;
  message = strncpy 512 msg;
  filepath = [];
  size = 0;
}

module _ (cmp : Response → Response → ℤ) where
  -- The search for the entry, and the push into its queue. `grows` says whether `realloc` succeeds.
  unfoldable pub deliver :
      Bool
      → ℕ
      → Response
      → List (PriorityItem ResponseQueueEntry)
      → List (PriorityItem ResponseQueueEntry)
  deliver grows client_id r [] = []
  deliver grows client_id r (e ∷ entries) =
      let rest = deliver grows client_id r entries in
      let pushed = (queue_push cmp grows e.item.queue r normal).0 in
      let filled : ResponseQueueEntry = record { client_id = e.item.client_id; queue = pushed } in
      if e.item.client_id == client_id
      then record { item = filled; priority = e.priority } ∷ entries
      else e ∷ rest

  -- `allocated` says whether `calloc` succeeds.
  unfoldable pub send_response :
      (allocated grows : Bool)
      → Queue ResponseQueueEntry
      → ℕ
      → ResponseStatus
      → Option Bytes
      → Queue ResponseQueueEntry
  unfolding deliver queue_push
  send_response allocated grows resp_map client_id st msg =
      if allocated
      then record resp_map {
        items = deliver grows client_id (response client_id st msg) resp_map.items;
      }
      else resp_map

-- The index of the first entry with the id.
unfoldable pub find_idx : List (PriorityItem ResponseQueueEntry) → ℕ → Option ℕ
find_idx [] client_id = none
find_idx (e ∷ entries) client_id =
    let rest = find_idx entries client_id in
    if e.item.client_id == client_id
    then some 0
    else elim rest [ none ↦ none | some i ↦ some (suc i) ]

unfoldable pub register_client_response_queue :
    (ResponseQueueEntry → ResponseQueueEntry → ℤ)
    → (allocated grows : Bool) → Queue ResponseQueueEntry
    → ℕ
    → Queue ResponseQueueEntry × Bool
unfolding queue_push
register_client_response_queue cmp allocated grows response_map client_id =
    let e : ResponseQueueEntry = record { client_id = client_id; queue = queue_init } in
    if allocated then queue_push cmp grows response_map e normal else (response_map, false)

-- The map without entry `i`: the last entry takes its place.
abbrev pub without : Queue ResponseQueueEntry → ℕ → Queue ResponseQueueEntry
without response_map i =
    let last = queue_size response_map - 1 in
    let moved =
      if ltb i last
      then set response_map.items i (get! response_map.items last)
      else response_map.items in
    record response_map { items = take last moved }

-- The entry is closed and destroyed behind this.
unfoldable pub deregister_client_response_queue :
    Queue ResponseQueueEntry → ℕ → Queue ResponseQueueEntry
unfolding find_idx
deregister_client_response_queue response_map client_id =
    elim (find_idx response_map.items client_id) [
      | none ↦ response_map
      | some i ↦ without response_map i
    ]
