-- ===== src/Queue/Insert.antt =====
-- queue_push of src/queue.c.
use mathlib.Core.List.Perm
use os_lab.Prelude.{
  ◌≤◌, ◌<◌, ◌≡◌, refl, ap, ◌⊎◌, inl, inr, Bool, true, false, List, [], ◌∷◌, ◌++◌, Perm, ℤ,
  Inhabited, get!-append, length, length-append, length-perm, concat-perm, leb, arith,
  if◌then◌else◌,
}
use os_lab.Priority.{TaskPriority}
use os_lab.Heap.{parent}
use os_lab.Heap.Order.{IsPreorder, IsHeap}
use os_lab.Heap.Up.{IsRising, heapify_up-perm, heapify_up-IsHeap}
use os_lab.Queue.{
  PriorityItem, item_inhabited, Queue, queue_size, new_capacity, by_item, append_item, queue_push,
  IsValid, by_item-IsPreorder,
}

module _ {ℓ} {A : Type ℓ} where
  -- The queue takes an item: it is open, and has room or gets it.
  abbrev pub Accepts : Bool → Queue A → Type 0
  Accepts allocated q = (q.closed ≡ false) × ((queue_size q < q.capacity) ⊎ (allocated ≡ true))

module _ {ℓ} {A : Type ℓ} ⦃inhabited : Inhabited A⦄ (cmp : A → A → ℤ) where
  append_item-perm :
      (q : Queue A) (item : A) (priority : TaskPriority)
      → Perm
          (append_item cmp item priority q).items
          (record { item = item; priority = priority } ∷ q.items)
  append_item-perm q item priority =
      let entry : PriorityItem A = record { item = item; priority = priority } in
      Perm.trans
        (heapify_up-perm (by_item cmp) (q.items ++ entry ∷ []) (length q.items)
          (omega (arith, length-append q.items (entry ∷ []))))
        (concat-perm q.items entry)

  append-IsRising :
      (a : List (PriorityItem A)) (entry : PriorityItem A)
      → IsHeap (by_item cmp) a
      → IsRising (by_item cmp) (a ++ entry ∷ []) (length a)
  append-IsRising a entry h =
      let size = length-append a (entry ∷ []) in
      record {
        inside = omega (arith, size);
        edges = λ c p q r.
            ground (
              arith,
              size,
              h c,
              get!-append a (entry ∷ []) c,
              get!-append a (entry ∷ []) (parent c),
            );
        bridged = λ c p q r. absurd (omega (arith, size));
      }

  -- The queue with room for one more entry.
  abbrev roomy : Queue A → Queue A
  roomy q = record q {
    capacity = if leb q.capacity (queue_size q) then new_capacity q else q.capacity;
  }

  queue_push-accepted :
      (allocated : Bool) (q : Queue A) (item : A) (priority : TaskPriority)
      → Accepts allocated q
      → queue_push cmp allocated q item priority ≡ (append_item cmp item priority (roomy q), true)
  unfolding queue_push
  queue_push-accepted allocated q item priority h = ground arith

  -- Whatever the comparison: a push that is accepted returns true, adds exactly the item with its
  -- priority, and leaves the queue open, with room for its entries.
  pub queue_push_accepted :
      (allocated : Bool) (q : Queue A) (item : A) (priority : TaskPriority)
      → Accepts allocated q
      → queue_size q ≤ q.capacity
      → ((queue_push cmp allocated q item priority).1 ≡ true)
        × Perm
            (queue_push cmp allocated q item priority).0.items
            (record { item = item; priority = priority } ∷ q.items)
        × ((queue_push cmp allocated q item priority).0.closed ≡ false)
        × (queue_size (queue_push cmp allocated q item priority).0
            ≤ (queue_push cmp allocated q item priority).0.capacity)
  queue_push_accepted allocated q item priority h fits =
      let same = append_item-perm q item priority in
      rw (queue_push-accepted allocated q item priority h)
        (refl, same, h.0, ground (arith, length-perm same))

  -- A push on a closed queue, or one that needs memory and gets none, returns false and changes
  -- nothing.
  pub queue_push_refused :
      (allocated : Bool) (q : Queue A) (item : A) (priority : TaskPriority)
      → (q.closed ≡ true) ⊎ ((q.capacity ≤ queue_size q) × (allocated ≡ false))
      → queue_push cmp allocated q item priority ≡ (q, false)
  unfolding queue_push
  queue_push_refused allocated q item priority h = ground arith

  pub Accepts-cases :
      (allocated : Bool) (q : Queue A)
      → Accepts allocated q
        ⊎ ((q.closed ≡ true) ⊎ ((q.capacity ≤ queue_size q) × (allocated ≡ false)))
  Accepts-cases allocated q = ground arith

  -- A push that returns true was accepted, and one that returns false changed nothing.
  pub queue_push-true :
      (allocated : Bool) (q : Queue A) (item : A) (priority : TaskPriority)
      → (queue_push cmp allocated q item priority).1 ≡ true
      → Accepts allocated q
  queue_push-true allocated q item priority h = elim (Accepts-cases allocated q) [
    | inl accepted ↦ accepted
    | inr refused ↦ cc (queue_push_refused allocated q item priority refused, h)
  ]

  pub queue_push-false :
      (allocated : Bool) (q : Queue A) (item : A) (priority : TaskPriority)
      → (queue_push cmp allocated q item priority).1 ≡ false
      → (queue_push cmp allocated q item priority).0 ≡ q
  queue_push-false allocated q item priority h = elim (Accepts-cases allocated q) [
    | inl accepted ↦ cc (queue_push-accepted allocated q item priority accepted, h)
    | inr refused ↦ ap (λ r. r.0) (queue_push_refused allocated q item priority refused)
  ]

  module _ (preorder : IsPreorder cmp) where
    -- A push keeps a valid queue valid, accepted or not.
    pub queue_push-IsValid :
        (allocated : Bool) (q : Queue A) (item : A) (priority : TaskPriority)
        → IsValid cmp q
        → IsValid cmp (queue_push cmp allocated q item priority).0
    queue_push-IsValid allocated q item priority v = elim (Accepts-cases allocated q) [
      | inr refused ↦ rw (queue_push_refused allocated q item priority refused) v
      | inl accepted ↦
          let entry : PriorityItem A = record { item = item; priority = priority } in
          rw (queue_push-accepted allocated q item priority accepted) (record {
            heap =
                heapify_up-IsHeap (by_item cmp) (by_item-IsPreorder cmp preorder) _ _
                  (append-IsRising q.items entry v.heap);
            bounded = ground (arith, v.bounded, length-perm (append_item-perm q item priority));
          })
    ]

  -- A push returns true and adds its entry, or returns false and leaves the queue as it is.
  pub queue_push_outcome :
      (allocated : Bool) (q : Queue A) (item : A) (priority : TaskPriority)
      → (((queue_push cmp allocated q item priority).1 ≡ true)
          × Perm
              (queue_push cmp allocated q item priority).0.items
              (record { item = item; priority = priority } ∷ q.items))
        ⊎ (queue_push cmp allocated q item priority ≡ (q, false))
  queue_push_outcome allocated q item priority = elim (Accepts-cases allocated q) [
    | inl accepted ↦ inl (
        rw (queue_push-accepted allocated q item priority accepted)
          (refl, append_item-perm q item priority))
    | inr refused ↦ inr (queue_push_refused allocated q item priority refused)
  ]

  -- A push adds its entry, or leaves the queue as it is.
  pub queue_push-added :
      (allocated : Bool) (q : Queue A) (item : A) (priority : TaskPriority)
      → Perm
          (queue_push cmp allocated q item priority).0.items
          (record { item = item; priority = priority } ∷ q.items)
        ⊎ ((queue_push cmp allocated q item priority).0 ≡ q)
  queue_push-added allocated q item priority = elim (queue_push_outcome allocated q item priority) [
    | inl (_, added) ↦ inl added
    | inr same ↦ inr (ap (λ r. r.0) same)
  ]
