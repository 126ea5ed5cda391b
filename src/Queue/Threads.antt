-- ===== src/Queue/Threads.antt =====
-- The threads that take from one queue of src/queue.c, as main of src/main.c starts them: what
-- `pthread_cond_wait`, `pthread_cond_signal` and `pthread_cond_broadcast` do on `not_empty`. The mutex
-- makes each stretch between two waits one step.
pub mod Alert
pub mod Shutdown
pub mod Items
mod Tests
use os_lab.Prelude.{ℕ, ◌+◌, ◌-◌, ◌<◌, ◌≡◌, Bool, true, false, ℤ, Inhabited, ◌==◌, if◌then◌else◌}
use os_lab.Priority.{TaskPriority}
use os_lab.Queue.{
  Queue, queue_init, queue_close, Pop, waits, finished, popped, queue_push, queue_pop,
}

-- A queue, with how many threads are between two calls of `queue_pop` (or before the first), sleep
-- in `pthread_cond_wait`, were woken there but do not hold the mutex yet, and got NULL.
pub record Pool {ℓ} (A : Type ℓ) : Type ℓ where
  pub queue : Queue A
  pub busy : ℕ
  pub sleeping : ℕ
  pub woken : ℕ
  pub returned : ℕ

module _ {ℓ} {A : Type ℓ} where
  abbrev pub spawned : ℕ → Pool A
  spawned threads = record {
    queue = queue_init;
    busy = threads;
    sleeping = 0;
    woken = 0;
    returned = 0;
  }

  abbrev pub cond_signal : Pool A → Pool A
  cond_signal p =
      if p.sleeping == 0 then p else record p { sleeping = p.sleeping - 1; woken = p.woken + 1 }

  abbrev pub cond_broadcast : Pool A → Pool A
  cond_broadcast p = record p { sleeping = 0; woken = p.woken + p.sleeping }

  -- `queue_close`, with the broadcast.
  abbrev pub close : Pool A → Pool A
  close p = cond_broadcast (record p { queue = queue_close p.queue })

  -- The end of `queue_push`: the signal, where the item was added.
  abbrev pub pushed_to : Pool A → Queue A × Bool → Pool A
  pushed_to p (q, true) = cond_signal (record p { queue = q })
  pushed_to p (q, false) = record p { queue = q }

  -- Where a thread is behind the guards of `queue_pop`, when it is counted nowhere yet.
  abbrev pub looked : Pool A → Pop A → Pool A
  looked p waits = record p { sleeping = p.sleeping + 1 }
  looked p finished = record p { returned = p.returned + 1 }
  looked p (popped item q) = record p { queue = q; busy = p.busy + 1 }

module _ {ℓ} {A : Type ℓ} ⦃inhabited : Inhabited A⦄ (cmp : A → A → ℤ) where
  abbrev pub push : Bool → A → TaskPriority → Pool A → Pool A
  push allocated item priority p = pushed_to p (queue_push cmp allocated p.queue item priority)

  -- A thread that was busy calls `queue_pop`.
  abbrev pub enter : Pool A → Pool A
  enter p = looked (record p { busy = p.busy - 1 }) (queue_pop cmp p.queue)

  -- A thread that was woken gets the mutex and reads the guard of the loop again.
  abbrev pub resume : Pool A → Pool A
  resume p = looked (record p { woken = p.woken - 1 }) (queue_pop cmp p.queue)

  -- A step of one of the threads.
  pub data Turn (p r : Pool A) : Type ℓ where
    enters : 0 < p.busy → r ≡ enter p → Turn p r
    resumes : 0 < p.woken → r ≡ resume p → Turn p r

  -- A step of the whole program. A thread may wake for no reason.
  pub data Step (p r : Pool A) : Type ℓ where
    turns : Turn p r → Step p r
    pushes :
        (allocated : Bool) (item : A) (priority : TaskPriority)
        → r ≡ push allocated item priority p
        → Step p r
    closes : r ≡ close p → Step p r
    wakes :
        0 < p.sleeping → r ≡ record p { sleeping = p.sleeping - 1; woken = p.woken + 1 } → Step p r

  pub data Reach (threads : ℕ) : Pool A → Type ℓ where
    here : Reach threads (spawned threads)
    next : {p r : Pool A} → Reach threads p → Step p r → Reach threads r

  -- Turns of the threads, one after the other, in any order.
  pub data Turns : ℕ → Pool A → Pool A → Type ℓ where
    stop : {p : Pool A} → Turns 0 p p
    turn : {n : ℕ} {p q r : Pool A} → Turn p q → Turns n q r → Turns (n + 1) p r
