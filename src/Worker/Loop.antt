-- ===== src/Worker/Loop.antt =====
-- The loop of worker_thread_main in src/worker.c: one thread that takes tasks from the queue until it
-- gets NULL.
use os_lab.Prelude.{
  ℕ, zero, suc, ◌+◌, ◌<◌, ◌≡◌, refl, ◌∙◌, true, List, [], ◌∷◌, ℤ, arith, inl, inr, Bool-cases, ltb,
  length-perm, Perm,
}
use os_lab.Task.{Task, task_compare_priority}
use os_lab.Task.Order.{Follows}
use os_lab.TaskQueue.{task_inhabited, drain_backwards}
use os_lab.Queue.History.{held}
use mathlib.Core.List.{Pairwise}
use os_lab.Queue.{IsValid, Queue, queue_size, Pop, waits, finished, popped, queue_pop}
use os_lab.Queue.Remove.{queue_pop_takes, queue_pop_empty}
use os_lab.Queue.Drain.{drain, drain_loop}
use os_lab.Sql.{Sql}
use os_lab.Responses.{Response}
use os_lab.Worker.{Outside, World, handle_task}

-- How the loop stands when it can go no further.
pub data End : Type 0 where
  returned waiting out_of_fuel : End

module _ (sql : Sql) (cmp : Response → Response → ℤ) (around : Task → Outside) where
  abbrev work_next :
      (Queue Task → World sql cmp → World sql cmp × End)
      → World sql cmp
      → Pop Task
      → World sql cmp × End
  work_next go_on w waits = (w, waiting)
  work_next go_on w finished = (w, returned)
  work_next go_on w (popped t q) = go_on q (handle_task sql cmp (around t) w t)

  pub work_loop : ℕ → Queue Task → World sql cmp → World sql cmp × End
  work_loop zero q w = (w, out_of_fuel)
  work_loop (suc fuel) q w = work_next (work_loop fuel) w (queue_pop task_compare_priority q)

  -- One round for each task that is queued, and one more.
  unfoldable pub worker_thread : Queue Task → World sql cmp → World sql cmp × End
  unfolding work_loop queue_pop handle_task
  worker_thread q w = work_loop (queue_size q + 1) q w

  -- The tasks, one after the other.
  unfoldable pub handle_all : List Task → World sql cmp → World sql cmp
  handle_all [] w = w
  handle_all (t ∷ tasks) w = handle_all tasks (handle_task sql cmp (around t) w t)

  work_loop-drain :
      (fuel : ℕ) (q : Queue Task) (w : World sql cmp)
      → queue_size q < fuel
      → q.closed ≡ true
      → work_loop fuel q w ≡ (handle_all (drain_loop task_compare_priority fuel q) w, returned)
  unfolding work_loop drain_loop handle_all
  work_loop-drain zero q w short closed = absurd (omega arith)
  work_loop-drain (suc fuel) q w short closed = elim (Bool-cases (ltb 0 (queue_size q))) [
    | inl more ↦
        let (entry, r, took) = queue_pop_takes task_compare_priority q (ground arith) in
        let smaller = length-perm took.others in
        rw (took.returned, drain_loop)
          (work_loop-drain fuel r (handle_task sql cmp (around entry.item) w entry.item)
            (omega arith) (took.same_closed ∙ closed))
    | inr none_left ↦
        let empty : queue_size q ≡ 0 = ground arith in
        rw ((queue_pop_empty task_compare_priority q).1.1 (empty, closed), drain_loop) refl
  ]

  -- On a closed queue of tasks that is valid, a worker thread carries out a list of tasks in which every
  -- task that is queued stands once and no other, in an order in which each follows, or ties with, all
  -- that come behind it, and then returns.
  pub worker_thread-drain :
      (q : Queue Task) (w : World sql cmp)
      → q.closed ≡ true
      → IsValid task_compare_priority q
      → (tasks : List Task) × Perm tasks (held q)
        × Pairwise Follows tasks
        × (worker_thread q w ≡ (handle_all tasks w, returned))
  unfolding worker_thread drain
  worker_thread-drain q w closed valid =
      let (sorted, same) = drain_backwards q valid in
      (
        drain task_compare_priority q,
        same,
        sorted,
        work_loop-drain (queue_size q + 1) q w (omega arith) closed,
      )
