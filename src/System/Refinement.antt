-- ===== src/System/Refinement.antt =====
-- The response map of src/main.c and src/worker.c as a finite map from clients to their queues: the
-- array, its order and the place of the entries do not matter.
pub mod Views
pub mod Laws
pub mod Runs
use mathlib.Core.List.{Nodup, Nodup-cons, Nodup-nil, mem-cons_self}
use mathlib.Core.List.Perm
use mathlib.Core.Path.{subst}
use os_lab.Prelude.{
  ℕ, suc, ◌≡◌, ◌⊎◌, refl, sym, ap, ◌∙◌, Bool, true, false, ◌&&◌, List, [], ◌∷◌, Option, none, some,
  Bytes, ℤ, map, Mem, Perm, arith, inl, inr, Bool-cases, ◌==◌, if◌then◌else◌,
}
use os_lab.Priority.{normal}
use os_lab.Queue.{PriorityItem, Queue, queue_init, queue_close}
use os_lab.Queue.Insert.{queue_push_outcome}
use os_lab.Responses.{
  Response, ResponseStatus, ResponseQueueEntry, response_inhabited, entry_inhabited, response,
  send_response, find_idx, register_client_response_queue, deregister_client_response_queue,
}
use os_lab.Responses.Delivery.{queue_of, with_response, queue_of-send_response}
use os_lab.Responses.Lookup.{ids_of, queue_of-cons, queue_of-perm, queue_of-absent}
use os_lab.Responses.Removal.{removes, keeps, deregister_lem}
use os_lab.System.{put_queue}
use os_lab.System.Addressed.{deliver_ids, put_queue_ids}

-- The abstract map.
abbrev pub View : Type 0
View = ℕ → Option (Queue Response)

abbrev pub view : Queue ResponseQueueEntry → View
view m = queue_of m.items

-- The view with another queue, or none, for a client.
abbrev pub updated : View → ℕ → Option (Queue Response) → View
updated v id q other = if id == other then q else v other

-- What the server does to the map: a registration by the accept loop, a response of a worker, the
-- queue that a client thread leaves when it has taken a response, the end of a client, and the closing
-- of the map.
pub data MapOp : Type 0 where
  registers : (allocated grows : Bool) → ℕ → MapOp
  responds : (allocated grows : Bool) → ℕ → ResponseStatus → Option Bytes → MapOp
  leaves : ℕ → Queue Response → MapOp
  deregisters : ℕ → MapOp
  shuts : MapOp

-- A client is registered once.
abbrev pub Legal : Queue ResponseQueueEntry → MapOp → Type 0
Legal m (registers allocated grows id) = ¬ Mem id (ids_of m.items)
Legal m _ = Unit

abbrev pub taken_back : Queue Response → Option (Queue Response) → Option (Queue Response)
taken_back q none = none
taken_back q (some old) = some q

module _ (cmp : Response → Response → ℤ)
    (cmp_entries : ResponseQueueEntry → ResponseQueueEntry → ℤ) where
  abbrev pub apply : MapOp → Queue ResponseQueueEntry → Queue ResponseQueueEntry
  apply (registers allocated grows id) m =
      (register_client_response_queue cmp_entries allocated grows m id).0
  apply (responds allocated grows id st msg) m = send_response cmp allocated grows m id st msg
  apply (leaves id q) m = record m { items = put_queue id q m.items }
  apply (deregisters id) m = deregister_client_response_queue m id
  apply shuts m = queue_close m

  -- Whether an operation returns true; only a registration can fail.
  abbrev pub done : MapOp → Queue ResponseQueueEntry → Bool
  done (registers allocated grows id) m =
      (register_client_response_queue cmp_entries allocated grows m id).1
  done _ m = true

  -- What the operation does to the abstract map.
  abbrev pub meaning : MapOp → Bool → View → View
  meaning (registers allocated grows id) true v = updated v id (some queue_init)
  meaning (registers allocated grows id) false v = v
  meaning (responds true grows id st msg) ok v =
      updated v id (with_response cmp grows (response id st msg) (v id))
  meaning (responds false grows id st msg) ok v = v
  meaning (leaves id q) ok v = updated v id (taken_back q (v id))
  meaning (deregisters id) ok v = updated v id none
  meaning shuts ok v = v
