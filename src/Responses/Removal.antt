-- ===== src/Responses/Removal.antt =====
-- What deregister_client_response_queue of src/main.c leaves in the map.
use os_lab.Prelude.{
  ℕ, zero, suc, ◌-◌, ◌<◌, ◌≡◌, refl, sym, ap, ◌∙◌, List, [], ◌∷◌, Perm, none, some, arith, get!,
  set, take, length, ltb, ◌==◌, inl, inr, Bool-cases, Option-cases, drop_last-perm, some_injective,
}
use os_lab.Queue.{PriorityItem, item_inhabited, Queue, queue_size}
use os_lab.Responses.{
  ResponseQueueEntry, entry_inhabited, find_idx, without, deregister_client_response_queue,
}

-- An index that the search returns is that of an entry with the id.
find_idx-found :
    (entries : List (PriorityItem ResponseQueueEntry)) (id i : ℕ)
    → find_idx entries id ≡ some i
    → (i < length entries) × ((get! entries i).item.client_id ≡ id)
unfolding find_idx get!
find_idx-found [] id i h = ground arith
find_idx-found (e ∷ entries) id i h = elim (Bool-cases (e.item.client_id == id)) [
  | inl hit ↦
      let first : find_idx (e ∷ entries) id ≡ some 0 = rw hit refl in
      let zeroth : 0 ≡ i = some_injective 0 i (sym first ∙ h) in
      let its : e.item.client_id ≡ id = ground arith in rw (← zeroth) (omega arith, its)
  | inr miss ↦ elim (Option-cases (find_idx entries id)) [
    | inl missing ↦
        let nowhere : find_idx (e ∷ entries) id ≡ none = rw (miss, missing) refl in
        let clash = sym h ∙ nowhere in ground arith
    | inr (j, found) ↦
        let later : find_idx (e ∷ entries) id ≡ some (suc j) = rw (miss, found) refl in
        let next : suc j ≡ i = some_injective (suc j) i (sym later ∙ h) in
        let (inside, its) = find_idx-found entries id j found in rw (← next) (omega arith, its)
  ]
]

set_last :
    (es : List (PriorityItem ResponseQueueEntry)) (n : ℕ)
    → take n (set es n (get! es n)) ≡ take n es
unfolding get!
set_last [] n = refl
set_last (e ∷ es) zero = refl
set_last (e ∷ es) (suc n) = ap (◌∷◌ e) (set_last es n)

without-perm :
    (m : Queue ResponseQueueEntry) (i : ℕ)
    → i < length m.items
    → Perm (get! m.items i ∷ (without m i).items) m.items
without-perm m i inside =
    let last = queue_size m - 1 in
    let size : length m.items ≡ suc last = omega arith in
    let dropped = drop_last-perm m.items last i size inside in
    elim (Bool-cases (ltb i last)) [
      | inl before ↦ rw before dropped
      | inr not_before ↦
          let same : i ≡ last = ground arith in
          let end = drop_last-perm m.items last last size (omega arith) in
          rw (not_before, same) (rw (set_last m.items last) at end)
    ]

-- Where the client has an entry, exactly one entry goes, one that has the client's id, and the others
-- stay; where it has none, the map stays as it is.
pub data Deregisters (id : ℕ) (before after : Queue ResponseQueueEntry) : Type 0 where
  removes :
      (e : PriorityItem ResponseQueueEntry)
      → e.item.client_id ≡ id
      → Perm (e ∷ after.items) before.items
      → Deregisters id before after
  keeps : find_idx before.items id ≡ none → after ≡ before → Deregisters id before after

-- Deregistering a client removes one entry of the client from the map, or leaves a map that has none
-- as it is.
pub deregister_lem :
    (m : Queue ResponseQueueEntry) (id : ℕ)
    → Deregisters id m (deregister_client_response_queue m id)
unfolding deregister_client_response_queue
deregister_lem m id = elim (Option-cases (find_idx m.items id)) [
  | inl missing ↦ rw (missing, deregister_client_response_queue) (keeps missing refl)
  | inr (i, found) ↦
      let (inside, its) = find_idx-found m.items id i found in
      rw (found, deregister_client_response_queue)
        (removes (get! m.items i) its (without-perm m i inside))
]
