-- ===== src/Queue/History.antt =====
-- A queue that threads share: every push, pop and close of src/queue.c is one critical section, so a
-- run is a sequence of them in any order.
use mathlib.Core.List.{perm_middle}
use mathlib.Core.List.Perm
use os_lab.Prelude.{
  ◌≤◌, ◌≡◌, Bool, true, false, List, [], ◌∷◌, ◌++◌, map, Perm, ℤ, Inhabited, length-perm, arith,
}
use os_lab.Priority.{TaskPriority}
use os_lab.Heap.Order.{IsPreorder}
use os_lab.Queue.{
  PriorityItem, Queue, queue_size, queue_init, queue_close, popped, queue_push, queue_pop, IsValid,
}
use os_lab.Queue.Insert.{queue_push_accepted, queue_push-true, queue_push-false, queue_push-IsValid}
use os_lab.Queue.Remove.{popped-Took, queue_pop-IsValid}

-- A queue with the items that were pushed into it and taken from it so far.
pub record Log {ℓ} (A : Type ℓ) : Type ℓ where
  pub queue : Queue A
  pub pushed : List A
  pub taken : List A

abbrev pub held {ℓ} : {A : Type ℓ} → Queue A → List A
held q = map (λ e. e.item) q.items

abbrev pub started {ℓ} : {A : Type ℓ} → Log A
started = record { queue = queue_init; pushed = []; taken = [] }

module _ {ℓ} {A : Type ℓ} ⦃inhabited : Inhabited A⦄ (cmp : A → A → ℤ) where
  -- One critical section. A push succeeds, or fails for want of memory or since the queue is
  -- closed; a pop that waits or returns NULL leaves the log as it is.
  pub data Step (l m : Log A) : Type ℓ where
    pushes :
        (allocated : Bool) (item : A) (priority : TaskPriority)
        → (queue_push cmp allocated l.queue item priority).1 ≡ true
        → m ≡ record l {
          queue = (queue_push cmp allocated l.queue item priority).0;
          pushed = item ∷ l.pushed;
        }
        → Step l m
    refuses :
        (allocated : Bool) (item : A) (priority : TaskPriority)
        → (queue_push cmp allocated l.queue item priority).1 ≡ false
        → m ≡ record l { queue = (queue_push cmp allocated l.queue item priority).0 }
        → Step l m
    pops :
        (item : A) (q : Queue A)
        → queue_pop cmp l.queue ≡ popped item q
        → m ≡ record l { queue = q; taken = item ∷ l.taken }
        → Step l m
    closes : m ≡ record l { queue = queue_close l.queue } → Step l m

  pub data Reach : Log A → Type ℓ where
    here : Reach started
    next : {l m : Log A} → Reach l → Step l m → Reach m

  -- What was pushed is what was taken and what is held, each item as often.
  pub record Conserved (l : Log A) : Type ℓ where
    pub same : Perm (l.taken ++ held l.queue) l.pushed
    pub fits : queue_size l.queue ≤ l.queue.capacity

  pub pushed-Conserved :
      (l : Log A) (allocated : Bool) (item : A) (priority : TaskPriority)
      → Conserved l
      → (queue_push cmp allocated l.queue item priority).1 ≡ true
      → Conserved (record l {
        queue = (queue_push cmp allocated l.queue item priority).0;
        pushed = item ∷ l.pushed;
      })
  pushed-Conserved l allocated item priority c h =
      let taken = queue_push-true cmp allocated l.queue item priority h in
      let (_, added, _, fits) =
        queue_push_accepted cmp allocated l.queue item priority taken c.fits in
      record {
        same =
            Perm.trans (Perm.append_left l.taken (Perm.map (λ e. e.item) added))
              (Perm.trans (perm_middle l.taken (held l.queue)) (Perm.cons item c.same));
        fits = fits;
      }

  pub popped-Conserved :
      (l : Log A) (item : A) (q : Queue A)
      → Conserved l
      → queue_pop cmp l.queue ≡ popped item q
      → Conserved (record l { queue = q; taken = item ∷ l.taken })
  popped-Conserved l item q c h =
      let (entry, same_item, took) = popped-Took cmp l.queue item q h in
      let left = Perm.map (λ (e : PriorityItem A). e.item) took.others in
      record {
        same =
            Perm.trans (Perm.symm (perm_middle l.taken (held q)))
              (Perm.trans (Perm.append_left l.taken (rw same_item at left)) c.same);
        fits = omega (arith, took.same_capacity, length-perm took.others, c.fits);
      }

  Step-Conserved : {l m : Log A} → Step l m → Conserved l → Conserved m
  Step-Conserved {l} (pushes allocated item priority h e) c =
      rw e (pushed-Conserved l allocated item priority c h)
  Step-Conserved {l} (refuses allocated item priority h e) c =
      rw (e, queue_push-false cmp allocated l.queue item priority h) c
  Step-Conserved {l} (pops item q h e) c = rw e (popped-Conserved l item q c h)
  Step-Conserved {l} (closes e) c = rw e (record { same = c.same; fits = c.fits })

  -- In every order of pushes, pops and closes that threads can make, with any comparison, no item is
  -- lost, invented or taken twice: those pushed are those taken and those held.
  pub Reach-Conserved : {l : Log A} → Reach l → Conserved l
  Reach-Conserved here = record { same = Perm.refl []; fits = omega arith }
  Reach-Conserved (next r s) = Step-Conserved s (Reach-Conserved r)

  module _ (preorder : IsPreorder cmp) where
    Step-IsValid : {l m : Log A} → Step l m → IsValid cmp l.queue → IsValid cmp m.queue
    Step-IsValid {l} (pushes allocated item priority h e) v =
        rw e (queue_push-IsValid cmp preorder allocated l.queue item priority v)
    Step-IsValid {l} (refuses allocated item priority h e) v =
        rw e (queue_push-IsValid cmp preorder allocated l.queue item priority v)
    Step-IsValid {l} (pops item q h e) v = rw e (queue_pop-IsValid cmp preorder l.queue item q h v)
    Step-IsValid {l} (closes e) v = rw e (record { heap = v.heap; bounded = v.bounded })

    -- Where the comparison is a total preorder, the queue has the heap order and room for its
    -- entries after every order of pushes, pops and closes.
    pub Reach-IsValid : {l : Log A} → Reach l → IsValid cmp l.queue
    Reach-IsValid here = record { heap = λ c p h. absurd (omega arith); bounded = omega arith }
    Reach-IsValid (next r s) = Step-IsValid s (Reach-IsValid r)
