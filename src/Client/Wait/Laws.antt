-- ===== src/Client/Wait/Laws.antt =====
-- What a client of src/client.c is told when it waits for a response.
use mathlib.Core.Path.{subst}
use os_lab.Prelude.{
  ◌+◌, ◌≤◌, ◌<◌, ◌≡◌, refl, Bool, true, false, List, [], ◌∷◌, ◌++◌, Option, none, some, Bytes,
  codes, ℤ, length, length-append, take_all, arith, inl, inr, ◌⊎◌, Bool-cases, ltb, ◌==◌,
}
use os_lab.Queue.{Queue, queue_size, popped, queue_pop}
use os_lab.Queue.Remove.{queue_pop_takes}
use os_lab.Responses.{Response, ResponseStatus, resp_ok, resp_err, response_inhabited}
use os_lab.Client.Wait.{
  Code, zero_code, timed_out, interrupted, failed, Wake, is_timed_out, is_failed, code_of,
  goes_on_waiting, wait_loop, status_text, reply_text, take_response, written, answer,
}

-- One of the wakes is the timeout.
abbrev pub ReachesTimeout : List Wake → Type 0
ReachesTimeout [] = ⊥
ReachesTimeout (w ∷ wakes) = (w.rc ≡ timed_out) ⊎ ReachesTimeout wakes

-- What the loop looks at last: the queue and `rc` at the beginning, or those behind a later wake, which
-- is only looked at if the queue was empty before it and `rc` was neither the timeout nor an
-- error.
pub data Looked : List Wake → Queue Response → Code → Queue Response → Code → Type 0 where
  stays : {wakes : List Wake} {q : Queue Response} {rc : Code} → Looked wakes q rc q rc
  goes_on :
      {w : Wake} {wakes : List Wake} {q q' : Queue Response} {rc rc' : Code}
      → queue_size q ≡ 0
      → is_timed_out rc ≡ false
      → is_failed rc ≡ false
      → Looked wakes w.queue (code_of w) q' rc'
      → Looked (w ∷ wakes) q rc q' rc'

-- How the loop ends: with a response in the queue, at the timeout, or by another error.
data Ended (q : Queue Response) (rc : Code) : Type 0 where
  filled : 0 < queue_size q → Ended q rc
  too_late : queue_size q ≡ 0 → rc ≡ timed_out → Ended q rc
  broken : rc ≡ failed → Ended q rc

Ended-guard : (q : Queue Response) (rc : Code) → goes_on_waiting q rc ≡ false → Ended q rc
Ended-guard q timed_out h = elim (Bool-cases (queue_size q == 0)) [
  | inl empty ↦ too_late (ground arith) refl
  | inr more ↦ filled (ground arith)
]
Ended-guard q zero_code h = filled (ground arith)
Ended-guard q interrupted h = filled (ground arith)
Ended-guard q failed h = filled (ground arith)

code_of-failed :
    (rc : Code) (past : Bool) (q : Queue Response)
    → is_failed rc ≡ true
    → code_of (record { rc = rc; past = past; queue = q }) ≡ failed
code_of-failed failed past q h = refl
code_of-failed zero_code past q h = absurd (ground arith)
code_of-failed timed_out past q h = absurd (ground arith)
code_of-failed interrupted past q h = absurd (ground arith)

code_of-fine :
    (rc : Code) (past : Bool) (q : Queue Response)
    → is_failed rc ≡ false
    → is_failed (code_of (record { rc = rc; past = past; queue = q })) ≡ false
code_of-fine failed past q h = h
code_of-fine zero_code past q h = refl
code_of-fine timed_out past q h = refl
code_of-fine interrupted true q h = refl
code_of-fine interrupted false q h = refl

-- The timeout has come, or is still to come.
abbrev Timed : List Wake → Code → Type 0
Timed wakes rc = (is_timed_out rc ≡ true) ⊎ ReachesTimeout wakes

Timed-next :
    (w : Wake) (wakes : List Wake) (q : Queue Response) (rc : Code)
    → goes_on_waiting q rc ≡ true
    → Timed (w ∷ wakes) rc
    → Timed wakes (code_of w)
Timed-next w wakes q rc goes (inl now) = absurd (ground arith)
Timed-next w wakes q rc goes (inr (inl next)) = inl (rw next refl)
Timed-next w wakes q rc goes (inr (inr later)) = inr later

abbrev Ends : List Wake → Queue Response → Code → Type 0
Ends wakes q rc =
    (q' : Queue Response) × (rc' : Code) × (wait_loop wakes q rc ≡ some (q', rc'))
    × Looked wakes q rc q' rc'
    × Ended q' rc'

-- The guard holds only of an empty queue.
goes_on-empty :
    (q : Queue Response) (rc : Code)
    → goes_on_waiting q rc ≡ true
    → (queue_size q ≡ 0) × (is_timed_out rc ≡ false)
goes_on-empty q rc h = (ground arith, ground arith)

wait_loop-Ended :
    (wakes : List Wake) (q : Queue Response) (rc : Code)
    → is_failed rc ≡ false
    → Timed wakes rc
    → Ends wakes q rc
unfolding wait_loop
wait_loop-Ended [] q rc sound (inl over) =
    let stops : goes_on_waiting q rc ≡ false = ground arith in
    (q, rc, rw stops, stays, Ended-guard q rc stops)
wait_loop-Ended [] q rc sound (inr never) = elim never [ ]
wait_loop-Ended (w ∷ wakes) q rc sound h = elim (Bool-cases (goes_on_waiting q rc)) [
  | inr stops ↦ (q, rc, rw stops refl, stays, Ended-guard q rc stops)
  | inl goes ↦
      let (empty, early) = goes_on-empty q rc goes in
      elim (Bool-cases (is_failed w.rc)) [
        | inl fails ↦ (
          w.queue,
          failed,
          rw (goes, fails) refl,
          goes_on empty early sound (
              subst (λ c. Looked wakes w.queue (code_of w) w.queue c)
                (code_of-failed w.rc w.past w.queue fails) stays),
          broken refl,
        )
        | inr fine ↦
            let (q', rc', is, looked, ended) =
              wait_loop-Ended wakes w.queue (code_of w) (code_of-fine w.rc w.past w.queue fine)
                (Timed-next w wakes q rc goes h) in
            (q', rc', rw (goes, fine) is, goes_on empty early sound looked, ended)
      ]
]

module _ (cmp : Response → Response → ℤ) where
  -- What the client is told for the queue and the `rc` that are looked at last.
  pub data Told (allocated : Bool) (q : Queue Response) (rc : Code)
      : Queue Response × Option Bytes → Type 0 where
    response_told :
        (left : Queue Response) (r : Response)
        → queue_pop cmp q ≡ popped r left
        → Told allocated q rc (left, some (reply_text r))
    timeout_told :
        queue_size q ≡ 0
        → rc ≡ timed_out
        → allocated ≡ true
        → Told allocated q rc (q, some (codes "ERR Request timed out\n"))
    timeout_lost :
        queue_size q ≡ 0 → rc ≡ timed_out → allocated ≡ false → Told allocated q rc (q, none)
    failure_lost : queue_size q ≡ 0 → rc ≡ failed → Told allocated q rc (q, none)

  take_response-filled :
      (q : Queue Response)
      → 0 < queue_size q
      → (r : Response) × (left : Queue Response) × (queue_pop cmp q ≡ popped r left)
        × (take_response cmp q ≡ (left, some r))
  take_response-filled q more =
      let (e, left, took) = queue_pop_takes cmp q more in
      let some_left : ltb 0 (queue_size q) ≡ true = ground arith in
      (e.item, left, took.returned, rw (some_left, took.returned) refl)

  written_filled :
      (allocated : Bool) (q : Queue Response) (rc : Code)
      → 0 < queue_size q
      → Told allocated q rc (written cmp allocated rc (take_response cmp q))
  written_filled allocated q rc more =
      let (r, left, pop, taken) = take_response-filled q more in rw taken (response_told left r pop)

  written-Told :
      (allocated : Bool) (q : Queue Response) (rc : Code)
      → Ended q rc
      → Told allocated q rc (written cmp allocated rc (take_response cmp q))
  written-Told allocated q rc (filled more) = written_filled allocated q rc more
  written-Told true q rc (too_late empty over) = rw (empty, over) (timeout_told empty refl refl)
  written-Told false q rc (too_late empty over) = rw (empty, over) (timeout_lost empty refl refl)
  written-Told allocated q rc (broken is) = elim (Bool-cases (ltb 0 (queue_size q))) [
    | inl more ↦ written_filled allocated q rc (ground arith)
    | inr empty ↦ rw (empty, is) (failure_lost (ground arith) refl)
  ]

  -- A wait that its timeout reaches ends, whatever else wakes the thread. What is looked at last is the
  -- client's queue at the beginning, or as a wake finds it while the queue was empty before and
  -- the wait neither timed out nor broken off. The client is told the response that a pop of that queue
  -- gives; if it is empty, the wait has timed out and the client is told so, or has broken off by another
  -- error, and nothing is written. Nothing is written either where the memory for the message of the
  -- timeout is missing.
  pub answer-Told :
      (allocated : Bool) (wakes : List Wake) (q : Queue Response)
      → ReachesTimeout wakes
      → (result : Queue Response × Option Bytes) × (answer cmp allocated wakes q ≡ some result)
        × (q' : Queue Response) × (rc : Code) × Looked wakes q zero_code q' rc
        × Told allocated q' rc result
  unfolding answer
  answer-Told allocated wakes q h =
      let (q', rc, is, looked, ended) = wait_loop-Ended wakes q zero_code refl (inr h) in
      (
        written cmp allocated rc (take_response cmp q'),
        rw is refl,
        q',
        rc,
        looked,
        written-Told allocated q' rc ended,
      )

  wait_loop-filled :
      (wakes : List Wake) (q : Queue Response) (rc : Code)
      → 0 < queue_size q
      → wait_loop wakes q rc ≡ some (q, rc)
  unfolding wait_loop
  wait_loop-filled [] q rc more =
      let stops : goes_on_waiting q rc ≡ false = ground arith in rw stops
  wait_loop-filled (w ∷ wakes) q rc more =
      let stops : goes_on_waiting q rc ≡ false = ground arith in rw stops

  -- If the queue already holds a response when the wait begins, the client is told at once what the
  -- queue gives, and no later response changes that: a response that came too late for one command is
  -- the reply to the next.
  pub answer-filled :
      (allocated : Bool) (wakes : List Wake) (q : Queue Response)
      → 0 < queue_size q
      → (r : Response) × (left : Queue Response) × (queue_pop cmp q ≡ popped r left)
        × (answer cmp allocated wakes q ≡ some (left, some (reply_text r)))
  unfolding answer
  answer-filled allocated wakes q more =
      let (r, left, pop, taken) = take_response-filled q more in
      (r, left, pop, rw (wait_loop-filled wakes q zero_code more, taken) refl)

-- A message of a response leaves room for the whole reply.
pub reply_text_whole :
    (r : Response)
    → length r.message < 512
    → reply_text r ≡ status_text r.status ++ codes " " ++ r.message ++ codes "\n"
reply_text_whole r fits =
    take_all 1023 (status_text r.status ++ codes " " ++ r.message ++ codes "\n") (short r.status)
  where
    rest_length : length (codes " " ++ r.message ++ codes "\n") ≡ length r.message + 2
    rest_length = omega (arith, length-append r.message (codes "\n"))

    short :
        (st : ResponseStatus)
        → length (status_text st ++ codes " " ++ r.message ++ codes "\n") ≤ 1023
    short resp_ok = omega (arith, rest_length)
    short resp_err = omega (arith, rest_length)
