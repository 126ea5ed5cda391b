-- ===== src/Task/Order.antt =====
-- The order that `task_compare_priority` of src/task.c puts on tasks.
use os_lab.Prelude.{◌≤◌, ◌<◌, ◌≡◌, ◌⊎◌, ◌↔◌, true, false, ge_zero, gt_zero, arith}
use os_lab.Priority.{to_ℕ}
use os_lab.Task.{Timespec, Task, task_compare_priority}

-- Time `s` is earlier than time `t`.
abbrev pub Earlier : Timespec → Timespec → Type 0
Earlier s t = (s.tv_sec < t.tv_sec) ⊎ ((s.tv_sec ≡ t.tv_sec) × (s.tv_nsec < t.tv_nsec))

-- Task `a` has the higher priority, or the same priority and the earlier time.
abbrev pub Precedes : Task → Task → Type 0
Precedes a b =
    (to_ℕ b.priority < to_ℕ a.priority)
    ⊎ ((to_ℕ a.priority ≡ to_ℕ b.priority) × Earlier a.enqueue_time b.enqueue_time)

-- Task `a` does not precede `b`.
abbrev pub Follows : Task → Task → Type 0
Follows a b =
    (to_ℕ a.priority < to_ℕ b.priority)
    ⊎ ((to_ℕ a.priority ≡ to_ℕ b.priority)
        × ((b.enqueue_time.tv_sec < a.enqueue_time.tv_sec)
            ⊎ ((b.enqueue_time.tv_sec ≡ a.enqueue_time.tv_sec)
                × (b.enqueue_time.tv_nsec ≤ a.enqueue_time.tv_nsec))))

-- The comparison of two tasks is negative exactly when the first has the higher priority, or the
-- same priority and the earlier time; it is at least zero exactly when the first follows or ties;
-- and it is positive exactly when the second precedes the first.
pub compare_signs :
    (a b : Task)
    → ((ge_zero (task_compare_priority a b) ≡ false) ↔ Precedes a b)
      × ((ge_zero (task_compare_priority a b) ≡ true) ↔ Follows a b)
      × ((gt_zero (task_compare_priority a b) ≡ true) ↔ Precedes b a)
unfolding task_compare_priority
compare_signs a b = ground arith

pub compare-flip_gt :
    (a b : Task)
    → gt_zero (task_compare_priority a b) ≡ false
    → ge_zero (task_compare_priority b a) ≡ true
unfolding task_compare_priority
compare-flip_gt a b h = ground arith

pub compare-flip_ge :
    (a b : Task)
    → ge_zero (task_compare_priority a b) ≡ false
    → ge_zero (task_compare_priority b a) ≡ true
unfolding task_compare_priority
compare-flip_ge a b h = ground arith

Follows-trans : (a b c : Task) → Follows a b → Follows b c → Follows a c
Follows-trans a b c p q = grind arith

pub compare_trans :
    (a b c : Task)
    → ge_zero (task_compare_priority a b) ≡ true
    → ge_zero (task_compare_priority b c) ≡ true
    → ge_zero (task_compare_priority a c) ≡ true
compare_trans a b c p q =
    (compare_signs a c).1.1
      (Follows-trans a b c ((compare_signs a b).1.0 p) ((compare_signs b c).1.0 q))
