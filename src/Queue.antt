-- ===== src/Queue.antt =====
-- include/queue.h and src/queue.c: the priority queue of pointers, under a mutex. Every operation
-- is one critical section, hence one function of the whole state. `items` lists the entries below
-- `size`. The comparison of two entries is a parameter: the source reads each pointer as a task.
pub mod Insert
pub mod Remove
pub mod History
pub mod Drain
pub mod Threads
pub mod Bag
mod Tests
use os_lab.Prelude.{
  ℕ, ◌+◌, ◌-◌, ◌*◌, ◌≤◌, Bool, true, false, List, [], ◌∷◌, ◌++◌, Option, none, some, ℤ, Inhabited,
  get!, set, take, length, leb, ltb, ◌==◌, if◌then◌else◌,
}
use os_lab.Priority.{TaskPriority, low}
use os_lab.Heap.{heapify_up, heapify_down}
use os_lab.Heap.Order.{IsPreorder, IsHeap}

-- The field `data` of the source is `item` here.
pub record PriorityItem {ℓ} (A : Type ℓ) : Type ℓ where
  pub item : A
  pub priority : TaskPriority

pub record Queue {ℓ} (A : Type ℓ) : Type ℓ where
  pub items : List (PriorityItem A)
  pub capacity : ℕ
  pub closed : Bool

-- How `queue_pop` goes on: it waits on `not_empty`, returns NULL, or returns an item.
pub data Pop {ℓ} (A : Type ℓ) : Type ℓ where
  waits : Pop A
  finished : Pop A
  popped : A → Queue A → Pop A

instance abbrev pub item_inhabited {ℓ} : {A : Type ℓ} ⦃a : Inhabited A⦄ → Inhabited (PriorityItem A)
item_inhabited ⦃a⦄ = record { default = record { item = a.default; priority = low } }

abbrev pub queue_size {ℓ} : {A : Type ℓ} → Queue A → ℕ
queue_size q = length q.items

abbrev pub queue_init {ℓ} : {A : Type ℓ} → Queue A
queue_init = record { items = []; capacity = 0; closed = false }

abbrev pub queue_close {ℓ} : {A : Type ℓ} → Queue A → Queue A
queue_close q = record q { closed = true }

abbrev pub queue_destroy {ℓ} : {A : Type ℓ} → Queue A → Queue A
queue_destroy q = record q { items = []; capacity = 0 }

module _ {ℓ} {A : Type ℓ} where
  abbrev pub new_capacity : Queue A → ℕ
  new_capacity q = if q.capacity == 0 then 16 else q.capacity * 2

  -- Room for one more entry; `allocated` says whether `realloc` succeeded.
  unfoldable pub grow : Bool → Queue A → Option (Queue A)
  grow allocated q =
      if leb q.capacity (queue_size q)
      then (if allocated then some (record q { capacity = new_capacity q }) else none)
      else some q

module _ {ℓ} {A : Type ℓ} ⦃inhabited : Inhabited A⦄ where
  -- The entries left when the last one was moved over the root.
  abbrev pub removed_root : Queue A → List (PriorityItem A)
  removed_root q = let last = queue_size q - 1 in take last (set q.items 0 (get! q.items last))

  unfoldable pub queue_peek : Queue A → Option A
  queue_peek q = if ltb 0 (queue_size q) then some (get! q.items 0).item else none

module _ {ℓ} {A : Type ℓ} ⦃inhabited : Inhabited A⦄ (cmp : A → A → ℤ) where
  abbrev pub by_item : PriorityItem A → PriorityItem A → ℤ
  by_item x y = cmp x.item y.item

  pub by_item-IsPreorder : IsPreorder cmp → IsPreorder by_item
  by_item-IsPreorder p = record {
    flip_ge = λ x y. p.flip_ge x.item y.item;
    flip_gt = λ x y. p.flip_gt x.item y.item;
    trans = λ x y z. p.trans x.item y.item z.item;
  }

  abbrev pub append_item : A → TaskPriority → Queue A → Queue A
  append_item item priority q =
      let entry : PriorityItem A = record { item = item; priority = priority } in
      record q { items = heapify_up by_item (q.items ++ entry ∷ []) (queue_size q) }

  unfoldable pub queue_push : Bool → Queue A → A → TaskPriority → Queue A × Bool
  unfolding grow
  queue_push allocated q item priority = if q.closed then (q, false) else elim (grow allocated q) [
    | none ↦ (q, false)
    | some q' ↦ (append_item item priority q', true)
  ]

  unfoldable pub queue_pop : Queue A → Pop A
  queue_pop q =
      let left = removed_root q in
      let sifted = if ltb 0 (length left) then heapify_down by_item left 0 else left in
      if queue_size q == 0
      then (if q.closed then finished else waits)
      else popped (get! q.items 0).item (record q { items = sifted })

  -- The heap order, and room for the entries in the array.
  pub record IsValid (q : Queue A) : Type 0 where
    pub heap : IsHeap by_item q.items
    pub bounded : length q.items ≤ q.capacity
