-- ===== src/Queue/Threads/Shutdown.antt =====
-- The end of a pool of threads once its queue is closed, which main of src/main.c waits for with
-- `pthread_join`.
use os_lab.Prelude.{
  ℕ, ◌+◌, ◌-◌, ◌≤◌, ◌<◌, ◌≡◌, refl, ◌∙◌, inl, inr, ◌⊎◌, true, ℤ, Inhabited, arith, Bool-cases, ltb,
}
use os_lab.Queue.{queue_size, Pop, waits, finished, popped, queue_pop}
use os_lab.Queue.Threads.{
  Pool, looked, enter, resume, Turn, enters, resumes, turns, Reach, next, Turns, stop, turn,
}
use os_lab.Queue.Threads.Alert.{Finds, nothing, the_end, an_item, queue_pop-Finds, Reach-Guards}

-- The turns that are left: one for each entry, and one for each thread that has not returned.
abbrev pub turns_left {ℓ} : {A : Type ℓ} → Pool A → ℕ
turns_left p = queue_size p.queue + p.busy + p.woken

module _ {ℓ} {A : Type ℓ} ⦃inhabited : Inhabited A⦄ (cmp : A → A → ℤ) where
  -- A turn on a closed queue.
  abbrev Shrinks : ℕ → Pool A → Type 0
  Shrinks left r = (turns_left r + 1 ≡ left) × (r.queue.closed ≡ true)

  looked-Shrinks :
      (p : Pool A) (found : Pop A)
      → Finds p.queue found
      → p.queue.closed ≡ true
      → Shrinks (turns_left p + 1) (looked p found)
  looked-Shrinks p waits (nothing empty is_open) shut = absurd (ground arith)
  looked-Shrinks p finished (the_end empty _) shut = (refl, shut)
  looked-Shrinks p (popped item r) (an_item size same room) shut = (omega arith, same ∙ shut)

  Turn-Shrinks : {p r : Pool A} → Turn cmp p r → p.queue.closed ≡ true → Shrinks (turns_left p) r
  Turn-Shrinks {p} (enters h e) shut =
      let (less, still) =
        looked-Shrinks (record p { busy = p.busy - 1 }) (queue_pop cmp p.queue)
          (queue_pop-Finds cmp p.queue) shut in
      rw e (omega arith, still)
  Turn-Shrinks {p} (resumes h e) shut =
      let (less, still) =
        looked-Shrinks (record p { woken = p.woken - 1 }) (queue_pop cmp p.queue)
          (queue_pop-Finds cmp p.queue) shut in
      rw e (omega arith, still)

  Turns-left :
      {n : ℕ} {p r : Pool A}
      → Turns cmp n p r
      → p.queue.closed ≡ true
      → (n + turns_left r ≡ turns_left p) × (r.queue.closed ≡ true)
  Turns-left stop shut = (omega arith, shut)
  Turns-left (turn t more) shut =
      let (less, still) = Turn-Shrinks t shut in
      let (rest, at_end) = Turns-left more still in (omega arith, at_end)

  Turns-Reach : {n m : ℕ} {p r : Pool A} → Turns cmp n p r → Reach cmp m p → Reach cmp m r
  Turns-Reach stop reached = reached
  Turns-Reach (turn t more) reached = Turns-Reach more (next reached (turns t))

  -- Some thread can go on, or there is no turn left.
  pub can_go_on : (p : Pool A) → ((r : Pool A) × Turn cmp p r) ⊎ (p.busy + p.woken ≡ 0)
  can_go_on p = elim (Bool-cases (ltb 0 p.busy)) [
    | inl some_busy ↦ inl (enter cmp p, enters (ground arith) refl)
    | inr none_busy ↦ elim (Bool-cases (ltb 0 p.woken)) [
      | inl some_woken ↦ inl (resume cmp p, resumes (ground arith) refl)
      | inr none_woken ↦ inr (ground arith)
    ]
  ]

  -- Of at least one thread, once the queue is closed, in every reachable state and for every order of the threads: as long
  -- as one of them has not returned, one can go on, and no more turns are ever made than there are
  -- entries and threads left. When none can go on, every thread that was started has returned,
  -- and no entry is left.
  pub Turns-joined :
      {threads n : ℕ} {p r : Pool A}
      → 0 < threads
      → Reach cmp threads p
      → p.queue.closed ≡ true
      → Turns cmp n p r
      → (n ≤ turns_left p)
        × (((s : Pool A) × Turn cmp r s) ⊎ ((r.returned ≡ threads) × (queue_size r.queue ≡ 0)))
  Turns-joined {r} many reached shut made =
      let (spent, still) = Turns-left made shut in
      let (alert, total, _, over) = Reach-Guards cmp (Turns-Reach made reached) in
      (
        omega arith,
        elim (can_go_on r) [ inl more ↦ inl more | inr quiet ↦ inr (ground arith, ground arith) ],
      )
