-- ===== src/System/Addressed.antt =====
-- The responses in the response map are those for the clients of their entries: the deliveries of
-- src/worker.c and the takes of src/client.c keep it so.
use mathlib.Core.List.Perm
use native.Mathlib.Nat.{ℕ_set}
use os_lab.Prelude.{
  ℕ, ◌≡◌, refl, sym, ap, ◌∙◌, Bool, true, false, List, [], ◌∷◌, some, Bytes, ℤ, map, Perm, All,
  All-Perm, All-prop, arith, inl, inr, Bool-cases, ◌==◌, some_injective,
}
use os_lab.Priority.{normal}
use os_lab.Queue.{PriorityItem, Queue, queue_init, popped, queue_push, queue_pop}
use os_lab.Queue.Insert.{queue_push-added}
use os_lab.Queue.Remove.{popped-Took}
use os_lab.Responses.{
  Response, ResponseStatus, ResponseQueueEntry, response_inhabited, entry_inhabited, response,
  deliver, send_response, register_client_response_queue, deregister_client_response_queue,
}
use os_lab.Responses.Delivery.{queue_of}
use os_lab.Responses.Removal.{removes, keeps, deregister_lem}
use os_lab.Server.{client_inhabited}
use os_lab.Server.Ids.{Fresh, Fresh-perm, Fresh-tail, map_ids}
use os_lab.System.{put_queue}

-- The responses of a queue are those for a client.
abbrev pub ForClient : ℕ → Queue Response → Type 0
ForClient id q = All (λ x. x.item.client_id ≡ id) q.items

-- The responses in an entry are for the entry's client.
abbrev pub Addressed : PriorityItem ResponseQueueEntry → Type 0
Addressed e = ForClient e.item.client_id e.item.queue

Addressed-prop : (e : PriorityItem ResponseQueueEntry) → IsProp (Addressed e)
Addressed-prop e = All-prop _ (λ x. ℕ_set _ _) e.item.queue.items

ForClient-perm :
    (id : ℕ) (xs ys : List (PriorityItem Response))
    → Perm xs ys
    → All (λ x. x.item.client_id ≡ id) ys
    → All (λ x. x.item.client_id ≡ id) xs
ForClient-perm id xs ys same all = All-Perm _ (λ x. ℕ_set _ _) (Perm.symm same) all

module _ (cmp : Response → Response → ℤ) where
  pushed-ForClient :
      (grows : Bool) (q : Queue Response) (r : Response) (id : ℕ)
      → r.client_id ≡ id
      → ForClient id q
      → ForClient id (queue_push cmp grows q r normal).0
  pushed-ForClient grows q r id its all = elim (queue_push-added cmp grows q r normal) [
    | inl added ↦
        ForClient-perm id _ (record { item = r; priority = normal } ∷ q.items) added (its, all)
    | inr same ↦ rw same all
  ]

  pub popped-ForClient :
      (q left : Queue Response) (r : Response) (id : ℕ)
      → queue_pop cmp q ≡ popped r left
      → ForClient id q
      → (r.client_id ≡ id) × ForClient id left
  popped-ForClient q left r id pop all =
      let (entry, same, took) = popped-Took cmp q r left pop in
      let (first, rest) = ForClient-perm id (entry ∷ left.items) q.items took.others all in
      (ap (λ x. x.client_id) (sym same) ∙ first, rest)

  deliver-Addressed :
      (grows : Bool) (id : ℕ) (r : Response) (entries : List (PriorityItem ResponseQueueEntry))
      → r.client_id ≡ id
      → All Addressed entries
      → All Addressed (deliver cmp grows id r entries)
  unfolding deliver
  deliver-Addressed grows id r [] its all = tt
  deliver-Addressed grows id r (e ∷ entries) its (first, all) =
      elim (Bool-cases (e.item.client_id == id)) [
        | inl hit ↦
            let same : e.item.client_id ≡ id = ground arith in
            rw hit
              (pushed-ForClient grows e.item.queue r e.item.client_id (its ∙ sym same) first, all)
        | inr miss ↦ rw miss (first, deliver-Addressed grows id r entries its all)
      ]

  pub deliver_ids :
      (grows : Bool) (id : ℕ) (r : Response) (entries : List (PriorityItem ResponseQueueEntry))
      → map (λ e. e.item.client_id) (deliver cmp grows id r entries)
        ≡ map (λ e. e.item.client_id) entries
  unfolding deliver
  deliver_ids grows id r [] = refl
  deliver_ids grows id r (e ∷ entries) = elim (Bool-cases (e.item.client_id == id)) [
    | inl hit ↦ rw hit refl
    | inr miss ↦ rw (miss, deliver_ids grows id r entries) refl
  ]

  pub delivered :
      (o_allocated grows : Bool) (q : Queue ResponseQueueEntry) (id : ℕ) (st : ResponseStatus)
      (message : Bytes)
      → All Addressed q.items
      → All Addressed (send_response cmp o_allocated grows q id st (some message)).items
  unfolding send_response
  delivered true grows q id st message all =
      deliver-Addressed grows id (response id st (some message)) q.items refl all
  delivered false grows q id st message all = all

  pub delivered_ids :
      (o_allocated grows : Bool) (q : Queue ResponseQueueEntry) (id : ℕ) (st : ResponseStatus)
      (message : Bytes)
      → map_ids (send_response cmp o_allocated grows q id st (some message)) ≡ map_ids q
  unfolding send_response
  delivered_ids true grows q id st message =
      deliver_ids grows id (response id st (some message)) q.items
  delivered_ids false grows q id st message = refl

pub put_queue-Addressed :
    (id : ℕ) (q : Queue Response) (entries : List (PriorityItem ResponseQueueEntry))
    → ForClient id q
    → All Addressed entries
    → All Addressed (put_queue id q entries)
unfolding put_queue
put_queue-Addressed id q [] its all = tt
put_queue-Addressed id q (e ∷ entries) its (first, all) =
    elim (Bool-cases (e.item.client_id == id)) [
      | inl hit ↦ let same : e.item.client_id ≡ id = ground arith in rw hit ((rw same its), all)
      | inr miss ↦ rw miss (first, put_queue-Addressed id q entries its all)
    ]

pub put_queue_ids :
    (id : ℕ) (q : Queue Response) (entries : List (PriorityItem ResponseQueueEntry))
    → map (λ e. e.item.client_id) (put_queue id q entries) ≡ map (λ e. e.item.client_id) entries
unfolding put_queue
put_queue_ids id q [] = refl
put_queue_ids id q (e ∷ entries) = elim (Bool-cases (e.item.client_id == id)) [
  | inl hit ↦ rw hit refl
  | inr miss ↦ rw (miss, put_queue_ids id q entries) refl
]

pub queue_of-ForClient :
    (entries : List (PriorityItem ResponseQueueEntry)) (id : ℕ) (q : Queue Response)
    → All Addressed entries
    → queue_of entries id ≡ some q
    → ForClient id q
unfolding queue_of
queue_of-ForClient [] id q all h = absurd (ground arith)
queue_of-ForClient (e ∷ entries) id q (first, all) h = elim (Bool-cases (e.item.client_id == id)) [
  | inl hit ↦
      let same : e.item.client_id ≡ id = ground arith in
      let found : e.item.queue ≡ q = some_injective e.item.queue q (rw hit at h) in
      rw (← found, ← same) first
  | inr miss ↦ queue_of-ForClient entries id q all (rw miss at h)
]

pub registered-Addressed :
    (cmp : ResponseQueueEntry → ResponseQueueEntry → ℤ) (allocated grows : Bool)
    (q : Queue ResponseQueueEntry) (n : ℕ)
    → All Addressed q.items
    → All Addressed (register_client_response_queue cmp allocated grows q n).0.items
unfolding register_client_response_queue
registered-Addressed cmp true grows q n all =
    let e : ResponseQueueEntry = record { client_id = n; queue = queue_init } in
    elim (queue_push-added cmp grows q e normal) [
      | inl added ↦
          All-Perm Addressed Addressed-prop {ys = (queue_push cmp grows q e normal).0.items}
            (Perm.symm added) (tt, all)
      | inr same ↦ rw same all
    ]
registered-Addressed cmp false grows q n all = all

pub deregistered :
    (q : Queue ResponseQueueEntry) (id n : ℕ)
    → All Addressed q.items
    → Fresh (map_ids q) n
    → All Addressed (deregister_client_response_queue q id).items
      × Fresh (map_ids (deregister_client_response_queue q id)) n
deregistered q id n all f = elim (deregister_lem q id) [
  | removes e its same ↦
      let left = All-Perm Addressed Addressed-prop (Perm.symm same) all in
      let ids = Perm.map (λ (e : PriorityItem ResponseQueueEntry). e.item.client_id) same in
      (left.1, Fresh-tail e.item.client_id _ n (Fresh-perm _ (map_ids q) n ids f))
  | keeps nowhere same ↦ rw same (all, f)
]
