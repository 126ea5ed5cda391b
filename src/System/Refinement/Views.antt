-- ===== src/System/Refinement/Views.antt =====
-- What each operation on the response map does to its view.
use mathlib.Core.List.{Nodup, Nodup-cons}
use mathlib.Core.List.Perm
use os_lab.Prelude.{
  ℕ, suc, ◌≡◌, ◌⊎◌, refl, sym, ap, ◌∙◌, Bool, true, false, List, [], ◌∷◌, Option, none, some, Bytes,
  ℤ, Perm, arith, inl, inr, Bool-cases, ◌==◌, if◌then◌else◌,
}
use os_lab.Queue.{PriorityItem, Queue}
use os_lab.Responses.{
  Response, ResponseStatus, ResponseQueueEntry, response_inhabited, entry_inhabited, response,
  send_response, find_idx,
}
use os_lab.Responses.Delivery.{queue_of, with_response, queue_of-send_response}
use os_lab.Responses.Lookup.{ids_of, queue_of-cons, queue_of-perm, queue_of-absent}
use os_lab.System.{put_queue}
use os_lab.System.Refinement.{view, updated, taken_back}

-- The entries without that of a client.
pub removed-view :
    (e : PriorityItem ResponseQueueEntry) (rest before : List (PriorityItem ResponseQueueEntry))
    (id other : ℕ)
    → e.item.client_id ≡ id
    → Perm (e ∷ rest) before
    → Nodup (ids_of (e ∷ rest))
    → queue_of rest other ≡ updated (queue_of before) id none other
removed-view e rest before id other its same once = elim (Bool-cases (id == other)) [
  | inl hit ↦
      let gone : e.item.client_id ≡ other = ground arith in
      rw hit (queue_of-absent rest other (λ m. (Nodup-cons.0 once).0 (rw gone m)))
  | inr miss ↦
      let past : (e.item.client_id == other) ≡ false = ground arith in
      rw miss (sym (queue_of-cons e rest other ∙ rw past refl) ∙ queue_of-perm other same once)
]

-- The entries with one more, of a new client.
pub added-view :
    (e : PriorityItem ResponseQueueEntry) (before after : List (PriorityItem ResponseQueueEntry))
    (other : ℕ)
    → Perm after (e ∷ before)
    → Nodup (ids_of (e ∷ before))
    → queue_of after other ≡ updated (queue_of before) e.item.client_id (some e.item.queue) other
added-view e before after other added once =
    sym (queue_of-perm other (Perm.symm added) once) ∙ queue_of-cons e before other

pub missing-view :
    (entries : List (PriorityItem ResponseQueueEntry)) (id : ℕ)
    → find_idx entries id ≡ none
    → queue_of entries id ≡ none
unfolding find_idx queue_of
missing-view [] id h = refl
missing-view (e ∷ entries) id h = elim (Bool-cases (e.item.client_id == id)) [
  | inl hit ↦ absurd (ground (arith, rw hit at h))
  | inr miss ↦ rw miss (missing-view entries id (behind (find_idx entries id) (rw miss at h)))
]
  where
    behind :
        (rest : Option ℕ) → elim rest [ none ↦ none | some i ↦ some (suc i) ] ≡ none → rest ≡ none
    behind none h = refl
    behind (some i) h = ground (arith, h)

pub left-view :
    (id : ℕ) (q : Queue Response) (entries : List (PriorityItem ResponseQueueEntry)) (other : ℕ)
    → queue_of (put_queue id q entries) other
      ≡ updated (queue_of entries) id (taken_back q (queue_of entries id)) other
unfolding put_queue queue_of
left-view id q [] other = ground arith
left-view id q (e ∷ entries) other =
    let same : e.item.client_id == id ≡ true → e.item.client_id == other ≡ id == other =
      λ h. ground arith in
    elim (Bool-cases (e.item.client_id == id)) [
      | inl hit ↦ elim (Bool-cases (id == other)) [
        | inl its ↦ rw (hit, same hit, its) refl
        | inr not_its ↦ rw (hit, same hit, not_its) refl
      ]
      | inr miss ↦ elim (Bool-cases (e.item.client_id == other)) [
        | inl its ↦ elim (Bool-cases (id == other)) [
          | inl clash ↦ ground arith
          | inr not_its ↦ rw (miss, its, not_its) refl
        ]
        | inr not_its ↦ rw (miss, not_its) (left-view id q entries other)
      ]
    ]

pub responded-view :
    (cmp : Response → Response → ℤ) (grows : Bool) (m : Queue ResponseQueueEntry) (id : ℕ)
    (st : ResponseStatus) (msg : Option Bytes) (other : ℕ)
    → view (send_response cmp true grows m id st msg) other
      ≡ updated (view m) id (with_response cmp grows (response id st msg) (view m id)) other
responded-view cmp grows m id st msg other =
    queue_of-send_response cmp grows m id st msg other ∙ at_id (Bool-cases (id == other))
  where
    r : Response
    r = response id st msg

    at_id :
        (id == other ≡ true) ⊎ (id == other ≡ false)
        → (if id == other then with_response cmp grows r (view m other) else view m other)
          ≡ updated (view m) id (with_response cmp grows r (view m id)) other
    at_id (inl hit) =
        let same : id ≡ other = ground arith in
        rw hit (ap (λ i. with_response cmp grows r (view m i)) (sym same))
    at_id (inr miss) = rw miss refl
