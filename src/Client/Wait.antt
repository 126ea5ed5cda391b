-- ===== src/Client/Wait.antt =====
-- How client_thread_main of src/client.c waits for a response, and the reply that it writes.
pub mod Laws
use os_lab.Prelude.{
  ℕ, Bool, true, false, not, ◌&&◌, List, [], ◌∷◌, ◌++◌, Option, none, some, Bytes, codes, snprintf,
  ℤ, ltb, ◌==◌, if◌then◌else◌,
}
use os_lab.Queue.{Queue, queue_size, Pop, popped, waits, finished, queue_pop}
use os_lab.Responses.{Response, ResponseStatus, resp_ok, resp_err, response_inhabited, response}

-- `rc`: 0, ETIMEDOUT, EINTR, or another error.
pub data Code : Type 0 where
  zero_code timed_out interrupted failed : Code

-- One return of `pthread_cond_timedwait`: its result, whether the clock shows the time as past, and
-- the client's queue as the other threads have left it.
pub record Wake : Type 0 where
  pub rc : Code
  pub past : Bool
  pub queue : Queue Response

abbrev pub is_timed_out : Code → Bool
is_timed_out timed_out = true
is_timed_out _ = false

abbrev pub is_failed : Code → Bool
is_failed failed = true
is_failed _ = false

-- `rc` behind the body of the loop.
abbrev pub code_of : Wake → Code
code_of w = elim w.rc [
  | zero_code ↦ zero_code
  | timed_out ↦ timed_out
  | interrupted ↦ if w.past then timed_out else interrupted
  | failed ↦ failed
]

-- `entry->queue.size == 0 && rc != ETIMEDOUT`
abbrev pub goes_on_waiting : Queue Response → Code → Bool
goes_on_waiting q rc = queue_size q == 0 && not (is_timed_out rc)

-- The loop. `none` says that the thread still waits behind the wakes that are listed.
unfoldable pub wait_loop : List Wake → Queue Response → Code → Option (Queue Response × Code)
wait_loop [] q rc = if goes_on_waiting q rc then none else some (q, rc)
wait_loop (w ∷ wakes) q rc =
    let rest = wait_loop wakes w.queue (code_of w) in
    let next = if is_failed w.rc then some (w.queue, failed) else rest in
    if goes_on_waiting q rc then next else some (q, rc)

abbrev pub status_text : ResponseStatus → Bytes
status_text resp_ok = codes "OK"
status_text resp_err = codes "ERR"

-- The line that is written for a response.
abbrev pub reply_text : Response → Bytes
reply_text r = snprintf 1024 (status_text r.status ++ codes " " ++ r.message ++ codes "\n")

-- `calloc` of the response that tells of the timeout.
abbrev pub late : Bool → Option Response
late false = none
late true = some (response 0 resp_err (some (codes "Request timed out")))

abbrev timeout_response : Bool → Code → Option Response
timeout_response allocated timed_out = late allocated
timeout_response allocated _ = none

module _ (cmp : Response → Response → ℤ) where
  -- `queue_pop`, where the queue is not empty.
  abbrev pub next_response : Queue Response → Pop Response → Queue Response × Option Response
  next_response q (popped r left) = (left, some r)
  next_response q waits = (q, none)
  next_response q finished = (q, none)

  abbrev pub take_response : Queue Response → Queue Response × Option Response
  take_response q = if ltb 0 (queue_size q) then next_response q (queue_pop cmp q) else (q, none)

  -- What is written to the client, if anything.
  abbrev pub written :
      Bool → Code → Queue Response × Option Response → Queue Response × Option Bytes
  written allocated rc (q, some r) = (q, some (reply_text r))
  written allocated rc (q, none) = elim (timeout_response allocated rc) [
    | none ↦ (q, none)
    | some r ↦ (q, some (reply_text r))
  ]

  abbrev pub finish_wait :
      Bool → Option (Queue Response × Code) → Option (Queue Response × Option Bytes)
  finish_wait allocated none = none
  finish_wait allocated (some (q, rc)) = some (written allocated rc (take_response q))

  -- From the start of the wait to the write: the client's queue, and the text.
  unfoldable pub answer : Bool → List Wake → Queue Response → Option (Queue Response × Option Bytes)
  unfolding wait_loop queue_pop
  answer allocated wakes q = finish_wait allocated (wait_loop wakes q zero_code)
