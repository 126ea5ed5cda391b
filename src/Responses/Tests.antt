-- ===== src/Responses/Tests.antt =====
-- The response map of two clients.
use os_lab.Prelude.{inr, arith, ◌≡◌, none, refl, true, ℕ, false, [], ◌∷◌, ℤ, pos}
use os_lab.Priority.{normal}
use os_lab.Queue.{PriorityItem, Queue, queue_init, queue_close, queue_size, queue_push, queue_pop}
use os_lab.Heap.{heapify_up, heapify_down}
use os_lab.Responses.Pointers
use os_lab.Responses.Pointers.{
  freed, submits, finds, pushes, takes, gives_up, unmaps, frees, Reach-settled,
}
use os_lab.Responses.Wakeup.{Entry, delivery, guard, Reach, here, next, IsAwake, Reach-IsAwake}
use os_lab.Responses.{response, resp_ok, Response, ResponseQueueEntry}

abbrev pub ties : Response → Response → ℤ
ties a b = pos 0

abbrev pub entry : ℕ → PriorityItem ResponseQueueEntry
entry id = record { item = record { client_id = id; queue = queue_init }; priority = normal }

abbrev pub two_clients : Queue ResponseQueueEntry
two_clients = record { items = entry 7 ∷ entry 9 ∷ []; capacity = 16; closed = false }

abbrev one_response : Entry
one_response = record {
  queue = record {
    items = record { item = response 9 resp_ok none; priority = normal } ∷ [];
    capacity = 16;
    closed = false;
  };
  sleeps = false;
}

-- The client waits, and a worker delivers a response.
one_response_reached : Reach ties one_response
unfolding queue_push heapify_up
one_response_reached =
    next (next here (guard false refl refl)) (delivery true (response 9 resp_ok none) refl)

Reach-IsAwake_example : IsAwake one_response
Reach-IsAwake_example = Reach-IsAwake ties one_response_reached

-- A worker that found the entry is slow, the client's thread gives up, and its session ends.
abbrev freed_entry : Pointers.Entry
freed_entry = record {
  phase = freed;
  tasks = 0;
  sending = 1;
  queue = queue_close queue_init;
  gave_up = true;
}

freed_entry_reached : Pointers.Reach ties freed_entry
freed_entry_reached =
    Pointers.next
      (Pointers.next
        (Pointers.next
          (Pointers.next (Pointers.next Pointers.here (submits 1 (omega arith) refl refl))
            (finds (omega arith) (inr refl) refl))
          (gives_up refl refl refl))
        (unmaps refl refl))
      (frees refl refl)

-- A session with one command that is answered.
abbrev settled_entry : Pointers.Entry
settled_entry = record freed_entry {
  sending = 0;
  gave_up = false;
  queue = record queue_init { capacity = 16; closed = true };
}

settled_entry_reached : Pointers.Reach ties settled_entry
unfolding queue_push queue_pop heapify_up heapify_down
settled_entry_reached =
    Pointers.next
      (Pointers.next
        (Pointers.next
          (Pointers.next
            (Pointers.next (Pointers.next Pointers.here (submits 1 (omega arith) refl refl))
              (finds (omega arith) (inr refl) refl))
            (pushes (omega arith) true (response 9 resp_ok none) refl))
          (takes (response 9 resp_ok none) (record queue_init { capacity = 16 }) refl refl refl))
        (unmaps refl refl))
      (frees refl refl)

Reach-settled_example :
    (settled_entry.tasks ≡ 0) × (settled_entry.sending ≡ 0) × (queue_size settled_entry.queue ≡ 0)
Reach-settled_example = Reach-settled ties settled_entry_reached refl (inr refl)
