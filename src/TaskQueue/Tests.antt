-- ===== src/TaskQueue/Tests.antt =====
-- Runs of the task queue, and its theorems at three waiting tasks.
use mathlib.Core.List.{Pairwise, mem-cons_self, mem-cons_of_mem}
use os_lab.Prelude.{ℕ, ◌≡◌, refl, true, false, [], ◌∷◌, Mem, Perm, arith, get!, codes}
use os_lab.Priority.{TaskPriority, normal, high}
use os_lab.Task.{upload, login, CommandType, Task, task_compare_priority}
use os_lab.Task.Order.{Follows}
use os_lab.Heap.{heapify_up, heapify_down}
use os_lab.Queue.{PriorityItem, Queue, queue_init, queue_push, queue_pop, IsValid}
use os_lab.Queue.Remove.{Took}
use os_lab.Queue.History.{held}
use os_lab.Queue.Drain.{drain}
use os_lab.TaskQueue.{task_inhabited, pop-last, drain_backwards}

abbrev pub task : CommandType → TaskPriority → ℕ → Task
task type priority time = record {
  type = type;
  client = record { client_id = 1; socket_fd = 5 };
  username = codes "ann";
  password = [];
  path = codes "a.txt";
  tmpfile = [];
  size = 0;
  priority = priority;
  enqueue_time = record { tv_sec = time; tv_nsec = 0 };
}

abbrev entry : Task → PriorityItem Task
entry t = record { item = t; priority = t.priority }

abbrev urgent : Task
urgent = task login high 10

abbrev early : Task
early = task upload normal 11

abbrev late : Task
late = task upload normal 12

abbrev pub waiting : Queue Task
waiting = record {
  items = entry late ∷ entry urgent ∷ entry early ∷ [];
  capacity = 16;
  closed = false;
}

-- The pushes of the three tasks, in the order of their times.
push_all :
    (queue_push task_compare_priority true
      (queue_push task_compare_priority true
        (queue_push task_compare_priority true queue_init urgent high).0
        early
        normal).0
      late
      normal).0
    ≡ waiting
unfolding queue_push heapify_up task_compare_priority
push_all = refl

drain-waiting : drain task_compare_priority waiting ≡ late ∷ early ∷ urgent ∷ []
unfolding drain queue_pop heapify_down task_compare_priority
drain-waiting = refl

pub waiting-IsValid : IsValid task_compare_priority waiting
unfolding get! task_compare_priority
waiting-IsValid = grind arith

early_member : Mem (entry early) waiting.items
early_member = mem-cons_of_mem _ (mem-cons_of_mem _ mem-cons_self)

pop-last_example :
    (e : PriorityItem Task) × (r : Queue Task) × Took task_compare_priority waiting e r
    × IsValid task_compare_priority r
    × ((f : PriorityItem Task) → Mem f waiting.items → Follows e.item f.item)
pop-last_example = pop-last waiting waiting-IsValid (omega arith)

drain_backwards_example :
    Pairwise Follows (drain task_compare_priority waiting)
    × Perm (drain task_compare_priority waiting) (held waiting)
drain_backwards_example = drain_backwards waiting waiting-IsValid
