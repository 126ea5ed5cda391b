-- ===== src/Responses/Delivery.antt =====
-- Where send_response of src/worker.c puts a response.
use os_lab.Prelude.{
  ℕ, ◌≡◌, refl, Bool, true, List, [], ◌∷◌, Option, none, some, Bytes, ℤ, arith, inl, inr,
  Bool-cases, ◌==◌, if◌then◌else◌,
}
use os_lab.Priority.{normal}
use os_lab.Queue.{PriorityItem, Queue, queue_push}
use os_lab.Responses.{
  Response, ResponseStatus, ResponseQueueEntry, response_inhabited, entry_inhabited, response,
  deliver, send_response,
}

-- The queue of a client: that of the first entry with the id.
unfoldable pub queue_of : List (PriorityItem ResponseQueueEntry) → ℕ → Option (Queue Response)
queue_of [] client_id = none
queue_of (e ∷ entries) client_id =
    let rest = queue_of entries client_id in
    if e.item.client_id == client_id then some e.item.queue else rest

module _ (cmp : Response → Response → ℤ) where
  -- The queue behind a push of the response, for a client that has a queue.
  abbrev pub with_response : Bool → Response → Option (Queue Response) → Option (Queue Response)
  with_response grows r none = none
  with_response grows r (some q) = some (queue_push cmp grows q r normal).0

  queue_of-deliver :
      (grows : Bool) (id : ℕ) (r : Response) (entries : List (PriorityItem ResponseQueueEntry))
      (other : ℕ)
      → queue_of (deliver cmp grows id r entries) other ≡ (
          if id == other
          then with_response grows r (queue_of entries other)
          else queue_of entries other)
  unfolding deliver queue_of
  queue_of-deliver grows id r [] other = ground arith
  queue_of-deliver grows id r (e ∷ entries) other =
      let rest = queue_of-deliver grows id r entries other in
      let same : e.item.client_id == id ≡ true → e.item.client_id == other ≡ id == other =
        λ h. ground arith in
      elim (Bool-cases (e.item.client_id == id)) [
        | inl hit ↦ elim (Bool-cases (id == other)) [
          | inl its ↦ rw (hit, same hit, its) refl
          | inr not_its ↦ rw (hit, same hit, not_its) refl
        ]
        | inr miss ↦ elim (Bool-cases (e.item.client_id == other)) [
          | inl its ↦ elim (Bool-cases (id == other)) [
            | inl clash ↦ ground arith
            | inr not_its ↦ rw (miss, its, not_its) refl
          ]
          | inr not_its ↦ rw (miss, not_its) rest
        ]
      ]

  -- A response reaches the queue of the client that it is for, by one push, and no other client's
  -- queue changes. A response for a client that has no queue changes nothing.
  pub queue_of-send_response :
      (grows : Bool) (resp_map : Queue ResponseQueueEntry) (id : ℕ) (st : ResponseStatus)
      (msg : Option Bytes) (other : ℕ)
      → queue_of (send_response cmp true grows resp_map id st msg).items other ≡ (
          if id == other
          then with_response grows (response id st msg) (queue_of resp_map.items other)
          else queue_of resp_map.items other)
  unfolding send_response
  queue_of-send_response grows resp_map id st msg other =
      queue_of-deliver grows id (response id st msg) resp_map.items other
