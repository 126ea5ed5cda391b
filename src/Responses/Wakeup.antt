-- ===== src/Responses/Wakeup.antt =====
-- The condition variable `response_available` of a client's entry: send_response of src/worker.c
-- signals it where the queue was empty, and the client's thread of src/client.c waits on it. No other
-- thread waits for the client.
use os_lab.Prelude.{
  ◌≡◌, Bool, true, false, ℤ, arith, inl, inr, Bool-cases, ◌⊎◌, ◌==◌, if◌then◌else◌, refl,
}
use os_lab.Priority.{normal}
use os_lab.Queue.{Queue, queue_size, queue_init, popped, queue_push, queue_pop}
use os_lab.Responses.{Response, response_inhabited}

-- The entry, and whether its client's thread sleeps in `pthread_cond_timedwait`.
pub record Entry : Type 0 where
  pub queue : Queue Response
  pub sleeps : Bool

abbrev pub registered : Entry
registered = record { queue = queue_init; sleeps = false }

-- The thread sleeps only over an empty queue.
abbrev pub IsAwake : Entry → Type 0
IsAwake e = (e.sleeps ≡ false) ⊎ (queue_size e.queue ≡ 0)

module _ (cmp : Response → Response → ℤ) where
  -- The end of `send_response`, under the entry's mutex: the push, which may fail, and the signal.
  abbrev pub delivers : Bool → Response → Entry → Entry
  delivers grows r e =
      let was_empty = queue_size e.queue == 0 in
      record {
        queue = (queue_push cmp grows e.queue r normal).0;
        sleeps = if was_empty then false else e.sleeps;
      }

  -- The guard of the loop around the wait, which the time may have ended.
  abbrev pub waits_again : (timed_out : Bool) → Entry → Entry
  waits_again timed_out e = record e {
    sleeps = if timed_out then false else queue_size e.queue == 0;
  }

  -- A step of a worker or of the client's thread. The thread wakes at a signal, at the timeout, or for no
  -- reason, and pops only when it is awake.
  pub data Step (e f : Entry) : Type 0 where
    delivery : (grows : Bool) (r : Response) → f ≡ delivers grows r e → Step e f
    guard : (timed_out : Bool) → e.sleeps ≡ false → f ≡ waits_again timed_out e → Step e f
    wake : f ≡ record e { sleeps = false } → Step e f
    take :
        (r : Response) (left : Queue Response)
        → e.sleeps ≡ false
        → queue_pop cmp e.queue ≡ popped r left
        → f ≡ record e { queue = left }
        → Step e f

  pub data Reach : Entry → Type 0 where
    here : Reach registered
    next : {e f : Entry} → Reach e → Step e f → Reach f

  delivers-IsAwake :
      (grows : Bool) (r : Response) (e : Entry) → IsAwake e → IsAwake (delivers grows r e)
  delivers-IsAwake grows r e awake = elim (Bool-cases (queue_size e.queue == 0)) [
    | inl empty ↦ inl (rw empty refl)
    | inr filled ↦ inl (ground arith)
  ]

  waits_again-IsAwake : (timed_out : Bool) (e : Entry) → IsAwake (waits_again timed_out e)
  waits_again-IsAwake true e = inl refl
  waits_again-IsAwake false e = elim (Bool-cases (queue_size e.queue == 0)) [
    | inl empty ↦ inr (ground arith)
    | inr filled ↦ inl filled
  ]

  -- Whatever the workers deliver and however the thread is woken: a client's thread never sleeps while
  -- its queue holds a response, though only a delivery into an empty queue signals it.
  pub Reach-IsAwake : {e : Entry} → Reach e → IsAwake e
  Reach-IsAwake here = inl refl
  Reach-IsAwake (next {e} r (delivery grows item is)) =
      rw is (delivers-IsAwake grows item e (Reach-IsAwake r))
  Reach-IsAwake (next {e} r (guard timed_out awake is)) = rw is (waits_again-IsAwake timed_out e)
  Reach-IsAwake (next r (wake is)) = rw is (inl refl)
  Reach-IsAwake (next r (take item left awake pop is)) = rw is (inl awake)
