-- ===== src/Queue/Threads/Alert.antt =====
-- No thread of a pool sleeps through a push or a close.
use os_lab.Prelude.{
  ℕ, ◌+◌, ◌-◌, ◌≤◌, ◌<◌, ◌≡◌, refl, ◌⊎◌, inl, inr, Bool, true, false, ℤ, Inhabited, length-perm,
  arith, ◌==◌, Bool-cases, ◌∙◌,
}
use os_lab.Priority.{TaskPriority}
use os_lab.Queue.{Queue, queue_size, Pop, waits, finished, popped, queue_push, queue_pop}
use os_lab.Queue.Insert.{queue_push-true, queue_push-false, queue_push_accepted}
use os_lab.Queue.Remove.{queue_pop_empty, popped-Took}
use os_lab.Queue.Threads.{
  Pool, cond_signal, pushed_to, looked, push, enter, resume, Turn, enters, resumes, Step, turns,
  pushes, closes, wakes, Reach, here, next,
}

-- Threads sleep only while the queue is open and a woken thread is on its way for each entry.
abbrev pub Alert {ℓ} : {A : Type ℓ} → Pool A → Type 0
Alert p = (p.sleeping ≡ 0) ⊎ ((queue_size p.queue ≤ p.woken) × (p.queue.closed ≡ false))

abbrev pub threads_of {ℓ} : {A : Type ℓ} → Pool A → ℕ
threads_of p = p.busy + p.sleeping + p.woken + p.returned

-- A thread returns only when no entry is left and none can come.
abbrev pub IsDrained {ℓ} : {A : Type ℓ} → Pool A → Type 0
IsDrained p = (p.returned ≡ 0) ⊎ ((queue_size p.queue ≡ 0) × (p.queue.closed ≡ true))

abbrev pub Guards {ℓ} : {A : Type ℓ} → ℕ → Pool A → Type 0
Guards n p = Alert p × (threads_of p ≡ n) × (queue_size p.queue ≤ p.queue.capacity) × IsDrained p

-- How a thread finds the queue when it reads the guards.
pub data Finds {ℓ} {A : Type ℓ} (q : Queue A) : Pop A → Type ℓ where
  nothing : queue_size q ≡ 0 → q.closed ≡ false → Finds q waits
  the_end : queue_size q ≡ 0 → q.closed ≡ true → Finds q finished
  an_item :
      {item : A} {r : Queue A}
      → queue_size q ≡ queue_size r + 1
      → r.closed ≡ q.closed
      → r.capacity ≡ q.capacity
      → Finds q (popped item r)

module _ {ℓ} {A : Type ℓ} ⦃inhabited : Inhabited A⦄ (cmp : A → A → ℤ) where
  Finds-pop : (q : Queue A) (found : Pop A) → queue_pop cmp q ≡ found → Finds q found
  Finds-pop q waits h =
      let (empty, is_open) = (queue_pop_empty cmp q).0.0 h in nothing empty is_open
  Finds-pop q finished h = let (empty, shut) = (queue_pop_empty cmp q).1.0 h in the_end empty shut
  Finds-pop q (popped item r) h =
      let (entry, _, took) = popped-Took cmp q item r h in
      an_item (omega (arith, length-perm took.others)) took.same_closed took.same_capacity

  pub queue_pop-Finds : (q : Queue A) → Finds q (queue_pop cmp q)
  queue_pop-Finds q = Finds-pop q (queue_pop cmp q) refl

  signal-Guards :
      {n : ℕ} (p : Pool A)
      → (p.sleeping ≡ 0) ⊎ ((queue_size p.queue ≤ p.woken + 1) × (p.queue.closed ≡ false))
      → threads_of p ≡ n
      → queue_size p.queue ≤ p.queue.capacity
      → IsDrained p
      → Guards n (cond_signal p)
  signal-Guards p h total fits over = elim (Bool-cases (p.sleeping == 0)) [
    | inl none_sleeps ↦ rw none_sleeps (inl (ground arith), total, fits, over)
    | inr sleeper ↦ rw sleeper (inr (ground arith), ground arith, fits, over)
  ]

  looked-Guards :
      {n : ℕ} (p : Pool A) (found : Pop A)
      → Finds p.queue found
      → (p.sleeping ≡ 0) ⊎ ((queue_size p.queue ≤ p.woken + 1) × (p.queue.closed ≡ false))
      → threads_of p + 1 ≡ n
      → queue_size p.queue ≤ p.queue.capacity
      → IsDrained p
      → Guards n (looked p found)
  looked-Guards p waits (nothing empty is_open) h total fits over =
      (inr (omega arith, is_open), omega arith, fits, over)
  looked-Guards p finished (the_end empty shut) h total fits over =
      (ground arith, omega arith, fits, inr (empty, shut))
  looked-Guards p (popped item r) (an_item size same room) h total fits over =
      (ground arith, omega arith, omega arith, ground arith)

  enter-Guards : {n : ℕ} (p : Pool A) → 0 < p.busy → Guards n p → Guards n (enter cmp p)
  enter-Guards p h (alert, total, fits, over) =
      looked-Guards (record p { busy = p.busy - 1 }) (queue_pop cmp p.queue)
        (queue_pop-Finds p.queue) (ground arith) (omega arith) fits over

  resume-Guards : {n : ℕ} (p : Pool A) → 0 < p.woken → Guards n p → Guards n (resume cmp p)
  resume-Guards p h (alert, total, fits, over) =
      looked-Guards (record p { woken = p.woken - 1 }) (queue_pop cmp p.queue)
        (queue_pop-Finds p.queue) (ground arith) (omega arith) fits over

  pushed_to-Guards :
      {n : ℕ} (p : Pool A) (q : Queue A) (accepted : Bool)
      → Guards n p
      → ((accepted ≡ true)
          × (queue_size q ≡ queue_size p.queue + 1)
          × (q.closed ≡ false)
          × (p.queue.closed ≡ false)
          × (queue_size q ≤ q.capacity))
        ⊎ ((accepted ≡ false) × (q ≡ p.queue))
      → Guards n (pushed_to p (q, accepted))
  pushed_to-Guards p q true (alert, total, fits, over) (inl (_, size, still, was, room)) =
      signal-Guards (record p { queue = q }) (ground arith) total room (ground arith)
  pushed_to-Guards p q true g (inr (refused, _)) = absurd (ground arith)
  pushed_to-Guards p q false g (inl (refused, _, _, _, _)) = absurd (ground arith)
  pushed_to-Guards p q false g (inr (_, same)) = rw same g

  -- What a push does to a queue that fits in its array.
  queue_push-cases :
      (allocated : Bool) (q : Queue A) (item : A) (priority : TaskPriority)
      → queue_size q ≤ q.capacity
      → let r = queue_push cmp allocated q item priority in
        ((r.1 ≡ true)
          × (queue_size r.0 ≡ queue_size q + 1)
          × (r.0.closed ≡ false)
          × (q.closed ≡ false)
          × (queue_size r.0 ≤ r.0.capacity))
        ⊎ ((r.1 ≡ false) × (r.0 ≡ q))
  queue_push-cases allocated q item priority fits =
      elim (Bool-cases (queue_push cmp allocated q item priority).1) [
        | inr refused ↦ inr (refused, queue_push-false cmp allocated q item priority refused)
        | inl done ↦
            let taken = queue_push-true cmp allocated q item priority done in
            let (_, added, is_open, room) =
              queue_push_accepted cmp allocated q item priority taken fits in
            inl (done, length-perm added ∙ omega arith, is_open, taken.0, room)
      ]

  push-Guards :
      {n : ℕ} (p : Pool A) (allocated : Bool) (item : A) (priority : TaskPriority)
      → Guards n p
      → Guards n (push cmp allocated item priority p)
  push-Guards p allocated item priority g =
      let r = queue_push cmp allocated p.queue item priority in
      pushed_to-Guards p r.0 r.1 g (queue_push-cases allocated p.queue item priority g.2)

  Turn-Guards : {n : ℕ} {p r : Pool A} → Turn cmp p r → Guards n p → Guards n r
  Turn-Guards {n} {p} (enters h e) g = rw e (enter-Guards p h g)
  Turn-Guards {n} {p} (resumes h e) g = rw e (resume-Guards p h g)

  Step-Guards : {n : ℕ} {p r : Pool A} → Step cmp p r → Guards n p → Guards n r
  Step-Guards (turns t) g = Turn-Guards t g
  Step-Guards {n} {p} (pushes allocated item priority e) g =
      rw e (push-Guards p allocated item priority g)
  Step-Guards {n} {p} (closes e) (alert, total, fits, over) =
      rw e (inl refl, omega arith, fits, ground arith)
  Step-Guards {n} {p} (wakes h e) (alert, total, fits, over) =
      rw e (ground arith, omega arith, fits, over)

  -- In every order of pushes, pops, closes and wakings, also needless ones: no thread is lost, and one
  -- sleeps only while the queue is open and a thread that was woken is on its way for each entry. A
  -- thread returns only when the queue is closed and empty, and stays so.
  pub Reach-Guards : {n : ℕ} {p : Pool A} → Reach cmp n p → Guards n p
  Reach-Guards here = (inl refl, omega arith, omega arith, inl refl)
  Reach-Guards (next r s) = Step-Guards s (Reach-Guards r)
