-- ===== src/Queue/Threads/Tests.antt =====
-- The theorems on the threads of a queue, at two threads and a queue of numbers.
use os_lab.Prelude.{
  Perm, ℕ, ◌≤◌, ◌≡◌, refl, ◌⊎◌, true, false, [], ◌∷◌, ℤ, pos, byte_inhabited, arith,
}
use os_lab.Priority.{normal}
use os_lab.Heap.{heapify_up}
use os_lab.Queue.{queue_size, queue_push, queue_pop}
use os_lab.Queue.Threads.{
  Pool, Turn, enters, resumes, turns, pushes, closes, Reach, here, next, Turns, stop, turn,
}
use os_lab.Queue.Threads.Alert.{Guards, Reach-Guards}
use os_lab.Queue.Threads.Items.{all_taken, all_pushed, joined-taken}
use os_lab.Queue.Threads.Shutdown.{turns_left, Turns-joined}

abbrev level : ℕ → ℕ → ℤ
level a b = pos 0

abbrev spawned_two : Pool ℕ
spawned_two = record {
  queue = record { items = []; capacity = 0; closed = false };
  busy = 2;
  sleeping = 0;
  woken = 0;
  returned = 0;
}

-- One thread sleeps.
abbrev one_asleep : Pool ℕ
one_asleep = record spawned_two { busy = 1; sleeping = 1 }

abbrev pushed_one : Pool ℕ
pushed_one = record one_asleep {
  queue = record {
    items = record { item = 5; priority = normal } ∷ [];
    capacity = 16;
    closed = false;
  };
  sleeping = 0;
  woken = 1;
}

abbrev closed_one : Pool ℕ
closed_one = record pushed_one { queue = record pushed_one.queue { closed = true } }

-- The thread that was not asleep took the entry.
abbrev taken_one : Pool ℕ
taken_one = record closed_one { queue = record closed_one.queue { items = [] } }

abbrev both_returned : Pool ℕ
both_returned = record taken_one { busy = 0; woken = 0; returned = 2 }

pushed_one_reached : Reach level 2 pushed_one
unfolding queue_push queue_pop heapify_up
pushed_one_reached =
    next (next here (turns (enters (omega arith) refl))) (pushes true 5 normal refl)

closed_one_reached : Reach level 2 closed_one
closed_one_reached = next pushed_one_reached (closes refl)

turns_made : Turns level 3 closed_one both_returned
unfolding queue_pop
turns_made =
    turn (enters (omega arith) refl)
      (turn (resumes (omega arith) refl) (turn (enters (omega arith) refl) stop))

Reach-Guards_example : Guards 2 pushed_one
Reach-Guards_example = Reach-Guards level pushed_one_reached

Turns-joined_example :
    (3 ≤ turns_left closed_one)
    × (((s : Pool ℕ) × Turn level both_returned s)
        ⊎ ((both_returned.returned ≡ 2) × (queue_size both_returned.queue ≡ 0)))
Turns-joined_example = Turns-joined level (omega arith) closed_one_reached refl turns_made

both_returned_reached : Reach level 2 both_returned
unfolding queue_pop
both_returned_reached =
    next
      (next (next closed_one_reached (turns (enters (omega arith) refl)))
        (turns (resumes (omega arith) refl)))
      (turns (enters (omega arith) refl))

joined-taken_example :
    Perm (all_taken level both_returned_reached) (all_pushed level both_returned_reached)
joined-taken_example = joined-taken level (omega arith) both_returned_reached refl
