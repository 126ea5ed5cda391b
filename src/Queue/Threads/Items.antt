-- ===== src/Queue/Threads/Items.antt =====
-- What becomes of the items that are pushed for a pool of threads.
use mathlib.Core.List.{append-nil}
use mathlib.Core.Path.{subst}
use os_lab.Prelude.{
  ℕ, ◌-◌, ◌<◌, ◌≡◌, refl, sym, ap, ◌∙◌, Bool, true, false, List, [], ◌∷◌, ◌++◌, map, length, Perm,
  ℤ, Inhabited, arith, inl, inr, Bool-cases, ◌==◌,
}
use os_lab.Priority.{TaskPriority}
use os_lab.Queue.{
  PriorityItem, Queue, queue_size, Pop, waits, finished, popped, queue_push, queue_pop,
}
use os_lab.Queue.History.{Log, Conserved, pushed-Conserved, popped-Conserved}
use os_lab.Queue.Insert.{queue_push-false}
use mathlib.Core.List.Perm
use os_lab.Queue.Threads.{
  Pool, cond_signal, pushed_to, looked, enters, resumes, Step, turns, pushes, closes, wakes, Reach,
  here, next,
}
use os_lab.Queue.Threads.Alert.{Reach-Guards}

module _ {ℓ} {A : Type ℓ} ⦃inhabited : Inhabited A⦄ (cmp : A → A → ℤ) where
  -- The item that `queue_pop` hands over, and the item that `queue_push` accepts, if any.
  abbrev pub item_of : Pop A → List A
  item_of waits = []
  item_of finished = []
  item_of (popped item q) = item ∷ []

  abbrev pub item_if : A → Bool → List A
  item_if item true = item ∷ []
  item_if item false = []

  abbrev pub taken_by : {p r : Pool A} → Step cmp p r → List A
  taken_by {p} (turns (enters busy is)) = item_of (queue_pop cmp p.queue)
  taken_by {p} (turns (resumes woken is)) = item_of (queue_pop cmp p.queue)
  taken_by (pushes allocated item priority is) = []
  taken_by (closes is) = []
  taken_by (wakes sleeping is) = []

  abbrev pub pushed_by : {p r : Pool A} → Step cmp p r → List A
  pushed_by (turns turn) = []
  pushed_by {p} (pushes allocated item priority is) =
      item_if item (queue_push cmp allocated p.queue item priority).1
  pushed_by (closes is) = []
  pushed_by (wakes sleeping is) = []

  -- The items that the threads took in a run, and those that were pushed with success.
  abbrev pub all_taken : {n : ℕ} {p : Pool A} → Reach cmp n p → List A
  all_taken here = []
  all_taken (next r s) = taken_by s ++ all_taken r

  abbrev pub all_pushed : {n : ℕ} {p : Pool A} → Reach cmp n p → List A
  all_pushed here = []
  all_pushed (next r s) = pushed_by s ++ all_pushed r

  -- What is held, taken and pushed, as a log of the queue.
  abbrev Kept : Queue A → (taken pushed : List A) → Type ℓ
  Kept q taken pushed = Conserved cmp (record { queue = q; pushed = pushed; taken = taken })

  looked-Kept :
      (p : Pool A) (q : Queue A) (taken pushed : List A) (found : Pop A)
      → queue_pop cmp q ≡ found
      → p.queue ≡ q
      → Kept q taken pushed
      → Kept (looked p found).queue (item_of found ++ taken) pushed
  looked-Kept p q taken pushed waits pop is c = rw is c
  looked-Kept p q taken pushed finished pop is c = rw is c
  looked-Kept p q taken pushed (popped item left) pop is c =
      popped-Conserved cmp (record { queue = q; pushed = pushed; taken = taken }) item left c pop

  signal_queue : (p : Pool A) → (cond_signal p).queue ≡ p.queue
  signal_queue p = elim (Bool-cases (p.sleeping == 0)) [
    | inl none_sleeps ↦ rw none_sleeps refl
    | inr sleeper ↦ rw sleeper refl
  ]

  pushed_to_queue : (p : Pool A) (r : Queue A × Bool) → (pushed_to p r).queue ≡ r.0
  pushed_to_queue p (q, true) = signal_queue (record p { queue = q })
  pushed_to_queue p (q, false) = refl

  pushed-Kept :
      (q : Queue A) (allocated : Bool) (item : A) (priority : TaskPriority) (taken pushed : List A)
      → Kept q taken pushed
      → Kept
          (queue_push cmp allocated q item priority).0
          taken
          (item_if item (queue_push cmp allocated q item priority).1 ++ pushed)
  pushed-Kept q allocated item priority taken pushed c =
      let l : Log A = record { queue = q; pushed = pushed; taken = taken } in
      elim (Bool-cases (queue_push cmp allocated q item priority).1) [
        | inl done ↦ rw done (pushed-Conserved cmp l allocated item priority c done)
        | inr refused ↦ rw (refused, queue_push-false cmp allocated q item priority refused) c
      ]

  Step-Kept :
      {p r : Pool A} (s : Step cmp p r) (taken pushed : List A)
      → Kept p.queue taken pushed
      → Kept r.queue (taken_by s ++ taken) (pushed_by s ++ pushed)
  Step-Kept {p} (turns (enters h e)) taken pushed c = rw e (
      looked-Kept (record p { busy = p.busy - 1 }) p.queue taken pushed (queue_pop cmp p.queue) refl
        refl c)
  Step-Kept {p} (turns (resumes h e)) taken pushed c = rw e (
      looked-Kept (record p { woken = p.woken - 1 }) p.queue taken pushed (queue_pop cmp p.queue)
        refl refl c)
  Step-Kept {p} (pushes allocated item priority e) taken pushed c = rw e (
      subst
        (λ q.
          Kept q taken (item_if item (queue_push cmp allocated p.queue item priority).1 ++ pushed))
        (sym (pushed_to_queue p (queue_push cmp allocated p.queue item priority)))
        (pushed-Kept p.queue allocated item priority taken pushed c))
  Step-Kept (closes e) taken pushed c = rw e (record { same = c.same; fits = c.fits })
  Step-Kept (wakes h e) taken pushed c = rw e c

  Reach-Kept : {n : ℕ} {p : Pool A} (r : Reach cmp n p) → Kept p.queue (all_taken r) (all_pushed r)
  Reach-Kept here = record { same = Perm.refl []; fits = omega arith }
  Reach-Kept (next r s) = Step-Kept s (all_taken r) (all_pushed r) (Reach-Kept r)

  none_held : (items : List (PriorityItem A)) → length items ≡ 0 → map (λ e. e.item) items ≡ []
  none_held [] h = refl
  none_held (e ∷ items) h = absurd (omega (arith, h))

  -- When all threads of a pool of at least one have returned, the items that the threads took in this
  -- run are exactly those that were pushed in it with success, each as often: no item is left behind,
  -- lost or taken twice, in whatever order the threads, the pushes and the close came.
  pub joined-taken :
      {threads : ℕ} {p : Pool A}
      → 0 < threads
      → (run : Reach cmp threads p) → p.returned ≡ threads
      → Perm (all_taken run) (all_pushed run)
  joined-taken {p = p} many run joined =
      let (_, _, _, over) = Reach-Guards cmp run in
      let empty : queue_size p.queue ≡ 0 = ground arith in
      subst (λ xs. Perm xs (all_pushed run))
        (ap (λ h. all_taken run ++ h) (none_held p.queue.items empty) ∙ append-nil (all_taken run))
        (Reach-Kept run).same
