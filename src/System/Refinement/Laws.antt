-- ===== src/System/Refinement/Laws.antt =====
-- The response map of the server behaves as the abstract map.
use mathlib.Core.List.{Nodup, Nodup-cons}
use mathlib.Core.List.Perm
use mathlib.Core.Path.{subst}
use os_lab.Prelude.{
  ℕ, ◌≡◌, refl, sym, ap, ◌∙◌, Bool, true, false, none, ℤ, Mem, arith, inl, inr, Bool-cases, ◌==◌,
}
use os_lab.Priority.{normal}
use os_lab.Queue.{PriorityItem, Queue, queue_init}
use os_lab.Queue.Insert.{queue_push_outcome}
use os_lab.Responses.{
  Response, ResponseQueueEntry, response_inhabited, entry_inhabited, response, send_response,
  find_idx, register_client_response_queue,
}
use os_lab.Responses.Lookup.{ids_of}
use os_lab.Responses.Removal.{removes, keeps, deregister_lem}
use os_lab.System.Addressed.{deliver_ids, put_queue_ids}
use os_lab.System.Refinement.{
  view, updated, MapOp, registers, responds, leaves, deregisters, shuts, Legal, apply, done,
  meaning,
}
use os_lab.System.Refinement.Views.{
  removed-view, added-view, missing-view, left-view, responded-view,
}

module _ (cmp : Response → Response → ℤ)
    (cmp_entries : ResponseQueueEntry → ResponseQueueEntry → ℤ) where
  -- The map before and behind an operation: the views agree, and the ids stay different.
  abbrev Refines : Queue ResponseQueueEntry → MapOp → Type 0
  Refines m op =
      ((other : ℕ)
        → view (apply cmp cmp_entries op m) other
          ≡ meaning cmp cmp_entries op (done cmp cmp_entries op m) (view m) other)
      × Nodup (ids_of (apply cmp cmp_entries op m).items)

  deregistered-Refines :
      (m : Queue ResponseQueueEntry) (id : ℕ) → Nodup (ids_of m.items) → Refines m (deregisters id)
  deregistered-Refines m id once = elim (deregister_lem m id) [
    | removes e its same ↦
        let both =
          Perm.nodup
            (Perm.map (λ (e : PriorityItem ResponseQueueEntry). e.item.client_id) (Perm.symm same))
            once in
        (λ other. removed-view e _ m.items id other its same both, (Nodup-cons.0 both).1)
    | keeps nowhere same ↦
        (λ other. ap (λ n. view n other) same ∙ unchanged other nowhere, rw same once)
  ]
    where
      unchanged :
          (other : ℕ) → find_idx m.items id ≡ none → view m other ≡ updated (view m) id none other
      unchanged other nowhere = elim (Bool-cases (id == other)) [
        | inl hit ↦
            let same : id ≡ other = ground arith in
            rw hit (ap (view m) (sym same) ∙ missing-view m.items id nowhere)
        | inr miss ↦ rw miss refl
      ]

  registered-Refines :
      (allocated grows : Bool) (m : Queue ResponseQueueEntry) (id : ℕ)
      → ¬ Mem id (ids_of m.items)
      → Nodup (ids_of m.items)
      → Refines m (registers allocated grows id)
  unfolding register_client_response_queue
  registered-Refines false grows m id absent once = (λ other. refl, once)
  registered-Refines true grows m id absent once =
      let e : ResponseQueueEntry = record { client_id = id; queue = queue_init } in
      let both = Nodup-cons.1 (absent, once) in
      elim (queue_push_outcome cmp_entries grows m e normal) [
        | inl (ok, added) ↦ (
          λ other.
              added-view (record { item = e; priority = normal }) m.items _ other added both
              ∙ ap (λ b. meaning cmp cmp_entries (registers true grows id) b (view m) other)
                  (sym ok),
          Perm.nodup
              (Perm.map (λ (e : PriorityItem ResponseQueueEntry). e.item.client_id)
                (Perm.symm added))
              both,
        )
        | inr same ↦ (
          λ other.
              ap (λ r. view r.0 other) same
              ∙ ap (λ r. meaning cmp cmp_entries (registers true grows id) r.1 (view m) other)
                  (sym same),
          subst (λ q. Nodup (ids_of q.items)) (ap (λ r. r.0) (sym same)) once,
        )
      ]

  pub apply-Refines :
      (m : Queue ResponseQueueEntry) (op : MapOp)
      → Legal m op
      → Nodup (ids_of m.items)
      → Refines m op
  unfolding send_response
  apply-Refines m (registers allocated grows id) absent once =
      registered-Refines allocated grows m id absent once
  apply-Refines m (responds true grows id st msg) legal once = (
    responded-view cmp grows m id st msg,
    rw (deliver_ids cmp grows id (response id st msg) m.items) once,
  )
  apply-Refines m (responds false grows id st msg) legal once = (λ other. refl, once)
  apply-Refines m (leaves id q) legal once =
      (left-view id q m.items, rw (put_queue_ids id q m.items) once)
  apply-Refines m (deregisters id) legal once = deregistered-Refines m id once
  apply-Refines m shuts legal once = (λ other. refl, once)
