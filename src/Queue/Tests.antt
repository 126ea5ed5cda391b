-- ===== src/Queue/Tests.antt =====
-- The theorems on the queue of any items, at a queue of numbers that are compared by size.
use os_lab.Prelude.{
  ℕ, refl, true, false, List, [], ◌∷◌, ℤ, pos, negsuc, byte_inhabited, arith, get!, ltb,
  if◌then◌else◌,
}
use os_lab.Priority.{normal}
use os_lab.Heap.{heapify_up}
use os_lab.Heap.Order.{IsPreorder}
use os_lab.Queue.{PriorityItem, item_inhabited, Queue, queue_push, queue_pop, IsValid}
use os_lab.Queue.Bag.{bag, Does, Step-Does}
use os_lab.Queue.History.{Log, Step, Reach, here, next, pushes, pops, Reach-IsValid}

cmp : ℕ → ℕ → ℤ
cmp a b = if ltb a b then negsuc 0 else if ltb b a then pos 1 else pos 0

cmp_IsPreorder : IsPreorder cmp
unfolding cmp
cmp_IsPreorder = record {
  flip_ge = λ x y h. ground arith;
  flip_gt = λ x y h. ground arith;
  trans = λ x y z p q. ground arith;
}

abbrev entry : ℕ → PriorityItem ℕ
entry n = record { item = n; priority = normal }

abbrev two : Queue ℕ
two = record { items = entry 7 ∷ entry 3 ∷ []; capacity = 16; closed = false }

two-IsValid : IsValid cmp two
unfolding get! cmp
two-IsValid = grind arith

abbrev one : Log ℕ
one = record {
  queue = record { items = entry 4 ∷ []; capacity = 16; closed = false };
  pushed = 4 ∷ [];
  taken = [];
}

one_reached : Reach cmp one
unfolding queue_push heapify_up cmp
one_reached = next here (pushes true 4 normal refl refl)

Reach-IsValid_example : IsValid cmp one.queue
Reach-IsValid_example = Reach-IsValid cmp cmp_IsPreorder one_reached

abbrev taken_one : Log ℕ
taken_one = record one { queue = record one.queue { items = [] }; taken = 4 ∷ [] }

one_taken : Step cmp one taken_one
unfolding queue_pop get!
one_taken = pops 4 (record one.queue { items = [] }) refl refl

Step-Does_example : Does cmp one_taken (bag one.queue) (bag taken_one.queue)
Step-Does_example = Step-Does cmp cmp_IsPreorder one_reached one_taken

abbrev unsifted : List (PriorityItem ℕ)
unsifted = entry 3 ∷ entry 7 ∷ entry 5 ∷ []
