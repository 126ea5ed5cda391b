-- ===== src/TaskQueue.antt =====
-- The task queue of the server: src/queue.c at the pointers to tasks of src/task.c, which is the
-- queue that client threads push to and worker threads pop from.
pub mod Tests
use mathlib.Core.Bool.{false≢true}
use mathlib.Core.List.{Pairwise}
use mathlib.Core.List.Pairwise
use os_lab.Prelude.{
  ◌<◌, ◌≡◌, ◌≢◌, Bool, true, false, List, [], Mem, Perm, Inhabited, arith, ge_zero, ◌⊎◌, ◌∙◌, sym,
  length_of_mem,
}
use os_lab.Priority.{low, to_ℕ}
use os_lab.Task.{unknown, Task, task_compare_priority}
use os_lab.Task.Order.{
  Precedes, Follows, compare_signs, compare-flip_ge, compare-flip_gt, compare_trans,
}
use os_lab.Heap.Order.{IsPreorder}
use os_lab.Queue.{PriorityItem, Queue, queue_size, Pop, popped, queue_push, queue_pop, IsValid}
use os_lab.Queue.Remove.{Took, queue_pop_largest, popped-injective}
use os_lab.Queue.History.{held}
use os_lab.Queue.Drain.{drain, drain_sorts}

-- A zeroed task, as `calloc` makes it.
instance abbrev pub task_inhabited : Inhabited Task
task_inhabited = record {
  default = record {
    type = unknown;
    client = record { client_id = 0; socket_fd = 0 };
    username = [];
    password = [];
    path = [];
    tmpfile = [];
    size = 0;
    priority = low;
    enqueue_time = record { tv_sec = 0; tv_nsec = 0 };
  };
}

pub task_IsPreorder : IsPreorder task_compare_priority
task_IsPreorder = record {
  flip_ge = compare-flip_ge;
  flip_gt = compare-flip_gt;
  trans = compare_trans;
}

-- A pop of a valid task queue that is not empty returns a task that follows, or ties with, every
-- task in the queue: one of the lowest priority that is queued and, among those, of the latest time.
-- The queue that it leaves is valid and holds exactly the other tasks.
pub pop-last :
    (q : Queue Task)
    → IsValid task_compare_priority q
    → 0 < queue_size q
    → (entry : PriorityItem Task) × (r : Queue Task) × Took task_compare_priority q entry r
      × IsValid task_compare_priority r
      × ((e : PriorityItem Task) → Mem e q.items → Follows entry.item e.item)
pop-last q v h =
    let (entry, r, took, valid, over) =
      queue_pop_largest task_compare_priority task_IsPreorder q v h in
    (entry, r, took, valid, λ e m. (compare_signs entry.item e.item).1.0 (over e m))

-- A pop of a valid task queue never returns a task that precedes one in the queue: one with a
-- higher priority, or with the same priority and an earlier time.
pub pop-passes_over :
    (q r : Queue Task) (task : Task) (queued : PriorityItem Task)
    → IsValid task_compare_priority q
    → Mem queued q.items
    → Precedes task queued.item
    → queue_pop task_compare_priority q ≢ popped task r
pop-passes_over q r task queued v m before eq =
    let filled : 0 < queue_size q = length_of_mem q.items m in
    let (entry, _, took, _, over) = pop-last q v filled in
    let (same, _) = popped-injective (sym took.returned ∙ eq) in
    let sign = (compare_signs entry.item queued.item).1.1 (over queued m) in
    false≢true (sym ((compare_signs task queued.item).0.1 before) ∙ (rw same at sign))

-- A single worker that takes tasks from a valid task queue until none is left gets each once, and
-- each follows, or ties with, all that come behind it: the priorities only rise, and within a
-- priority the latest task comes first.
pub drain_backwards :
    (q : Queue Task)
    → IsValid task_compare_priority q
    → Pairwise Follows (drain task_compare_priority q)
      × Perm (drain task_compare_priority q) (held q)
drain_backwards q v =
    let (sorted, same) = drain_sorts task_compare_priority task_IsPreorder q v in
    (Pairwise.imp (λ a b. (compare_signs a b).1.0) sorted, same)
