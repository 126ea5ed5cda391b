-- ===== src/Responses/Lookup.antt =====
-- The queue that the response map has for a client does not depend on the order of its entries, which
-- have different ids.
use mathlib.Core.List.{Nodup, Nodup-cons, Permᴰ, mem-cons_self, mem-cons_of_mem}
use mathlib.Core.List.Permᴰ.{nil, cons, swap, trans}
use mathlib.Core.List.Perm
use mathlib.Core.Logic.{∥∥₁_elim}
use os_lab.Prelude.{
  ℕ, ◌≡◌, ◌≢◌, refl, sym, ◌∙◌, List, [], ◌∷◌, Option, none, some, map, Mem, Perm, arith, inl, inr,
  Bool-cases, ◌==◌, if◌then◌else◌,
}
use os_lab.Queue.{PriorityItem, Queue}
use os_lab.Responses.{Response, ResponseQueueEntry}
use os_lab.Responses.Delivery.{queue_of}

abbrev pub ids_of : List (PriorityItem ResponseQueueEntry) → List ℕ
ids_of = map (λ e. e.item.client_id)

pub queue_of-cons :
    (e : PriorityItem ResponseQueueEntry) (entries : List (PriorityItem ResponseQueueEntry))
    (id : ℕ)
    → queue_of (e ∷ entries) id
      ≡ (if e.item.client_id == id then some e.item.queue else queue_of entries id)
unfolding queue_of
queue_of-cons e entries id = refl

queue_set : IsSet (Option (Queue Response))
queue_set = hlevel

-- Both of two entries in front cannot have the id if the ids differ.
swapped :
    (a b : PriorityItem ResponseQueueEntry) (entries : List (PriorityItem ResponseQueueEntry))
    (id : ℕ)
    → a.item.client_id ≢ b.item.client_id
    → queue_of (a ∷ b ∷ entries) id ≡ queue_of (b ∷ a ∷ entries) id
unfolding queue_of
swapped a b entries id apart = elim (Bool-cases (a.item.client_id == id)) [
  | inl its ↦ elim (Bool-cases (b.item.client_id == id)) [
    | inl too ↦ absurd (apart (ground arith))
    | inr not_too ↦ rw (its, not_too) refl
  ]
  | inr not_its ↦ rw not_its refl
]

queue_of-permᴰ :
    {xs ys : List (PriorityItem ResponseQueueEntry)} (id : ℕ)
    → Permᴰ xs ys
    → Nodup (ids_of xs)
    → queue_of xs id ≡ queue_of ys id
queue_of-permᴰ id nil once = refl
queue_of-permᴰ {xs} {ys} id (cons {a} {b} {l₁} {l₂} e same) once =
    let rest = queue_of-permᴰ id same (Nodup-cons.0 once).1 in
    rw e (queue_of-cons b l₁ id ∙ rw rest refl ∙ sym (queue_of-cons b l₂ id))
queue_of-permᴰ id (swap {a} {b} {a'} {b'} {l} p q) once =
    rw (← p, ← q) (swapped a b l id (λ e. (Nodup-cons.0 once).0 (rw e mem-cons_self)))
queue_of-permᴰ id (trans same same') once =
    queue_of-permᴰ id same once
    ∙ queue_of-permᴰ id same' (Perm.nodup (Perm.map (λ e. e.item.client_id) ∣ same ∣₁) once)

-- Two maps with the same entries in any order have the same queue for each client.
pub queue_of-perm :
    {xs ys : List (PriorityItem ResponseQueueEntry)} (id : ℕ)
    → Perm xs ys
    → Nodup (ids_of xs)
    → queue_of xs id ≡ queue_of ys id
queue_of-perm {xs} {ys} id same once =
    ∥∥₁_elim same (queue_set (queue_of xs id) (queue_of ys id)) (λ d. queue_of-permᴰ id d once)

-- A client without an entry has no queue.
pub queue_of-absent :
    (entries : List (PriorityItem ResponseQueueEntry)) (id : ℕ)
    → ¬ Mem id (ids_of entries)
    → queue_of entries id ≡ none
unfolding queue_of
queue_of-absent [] id absent = refl
queue_of-absent (e ∷ entries) id absent = elim (Bool-cases (e.item.client_id == id)) [
  | inl its ↦
      let same : e.item.client_id ≡ id = ground arith in absurd (absent (rw same mem-cons_self))
  | inr not_its ↦ rw not_its (queue_of-absent entries id (λ m. absent (mem-cons_of_mem _ m)))
]
