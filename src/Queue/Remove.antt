-- ===== src/Queue/Remove.antt =====
-- queue_pop and queue_peek of src/queue.c.
use mathlib.Core.Bool.{Bool-set}
use mathlib.Core.List.{not-mem-nil, forall_mem-cons}
use mathlib.Core.List.Perm
use mathlib.Core.Path.{subst}
use os_lab.Prelude.{
  ℕ, suc, ◌-◌, ◌<◌, ◌≡◌, refl, sym, ◌∙◌, ◌↔◌, inl, inr, true, false, List, [], ◌∷◌, Mem, Perm, some,
  ℤ, ge_zero, Inhabited, get!, get!-set, get!-take, set, length, length-take, length-set,
  length-perm, drop_last-perm, ltb, arith, if◌then◌else◌, Bool-cases,
}
use os_lab.Heap.{parent, heapify_down}
use os_lab.Heap.Order.{IsPreorder, IsHeap, root_largest}
use os_lab.Heap.Down.{IsSinking, heapify_down-perm, heapify_down-IsHeap}
use os_lab.Queue.{
  PriorityItem, item_inhabited, Queue, queue_size, waits, finished, popped, by_item, removed_root,
  queue_pop, queue_peek, IsValid, by_item-IsPreorder,
}

pub popped-injective {ℓ} :
    {A : Type ℓ} {x y : A} {q r : Queue A} → popped x q ≡ popped y r → (x ≡ y) × (q ≡ r)
popped-injective h = (cc, cc)

module _ {ℓ} {A : Type ℓ} ⦃inhabited : Inhabited A⦄ (cmp : A → A → ℤ) where
  -- The entries that `queue_pop` leaves.
  abbrev sifted : Queue A → List (PriorityItem A)
  sifted q =
      let left = removed_root q in
      if ltb 0 (length left) then heapify_down (by_item cmp) left 0 else left

  removed_root-perm :
      (q : Queue A) → 0 < queue_size q → Perm (get! q.items 0 ∷ removed_root q) q.items
  removed_root-perm q h = drop_last-perm q.items (queue_size q - 1) 0 (omega arith) h

  sifted-perm : (q : Queue A) → Perm (sifted q) (removed_root q)
  sifted-perm q = elim (Bool-cases (ltb 0 (length (removed_root q)))) [
    | inl more ↦ rw more (heapify_down-perm (by_item cmp) (removed_root q) 0 (ground arith))
    | inr done ↦ rw done (Perm.refl (removed_root q))
  ]

  -- `queue_pop` on a queue that is not empty.
  queue_pop-popped :
      (q : Queue A)
      → 0 < queue_size q
      → queue_pop cmp q ≡ popped (get! q.items 0).item (record q { items = sifted q })
  unfolding queue_pop
  queue_pop-popped q h = ground arith

  -- What a pop that returns takes from the queue `q`: one entry, which leaves the queue `r`.
  pub record Took (q : Queue A) (entry : PriorityItem A) (r : Queue A) : Type ℓ where
    pub returned : queue_pop cmp q ≡ popped entry.item r
    pub others : Perm (entry ∷ r.items) q.items
    pub same_closed : r.closed ≡ q.closed
    pub same_capacity : r.capacity ≡ q.capacity

  queue_pop-Took :
      (q : Queue A) → 0 < queue_size q → Took q (get! q.items 0) (record q { items = sifted q })
  queue_pop-Took q h = record {
    returned = queue_pop-popped q h;
    others = Perm.trans (Perm.cons _ (sifted-perm q)) (removed_root-perm q h);
    same_closed = refl;
    same_capacity = refl;
  }

  -- Whatever the comparison: a pop of a queue that is not empty, closed or not, returns the item of
  -- one entry and leaves exactly the others.
  pub queue_pop_takes :
      (q : Queue A) → 0 < queue_size q → (entry : PriorityItem A) × (r : Queue A) × Took q entry r
  queue_pop_takes q h = (get! q.items 0, record q { items = sifted q }, queue_pop-Took q h)

  -- A pop of an empty queue waits while the queue is open, and returns NULL once it is closed. It
  -- never returns NULL or waits while an entry is left.
  pub queue_pop_empty :
      (q : Queue A)
      → ((queue_pop cmp q ≡ waits) ↔ ((queue_size q ≡ 0) × (q.closed ≡ false)))
        × ((queue_pop cmp q ≡ finished) ↔ ((queue_size q ≡ 0) × (q.closed ≡ true)))
  unfolding queue_pop
  queue_pop_empty q = ground arith

  -- A pop that returns took one entry.
  pub popped-Took :
      (q : Queue A) (x : A) (r : Queue A)
      → queue_pop cmp q ≡ popped x r
      → (entry : PriorityItem A) × (entry.item ≡ x) × Took q entry r
  popped-Took q x r h = elim (Bool-cases (ltb 0 (queue_size q))) [
    | inl more ↦
        let took = queue_pop-Took q (ground arith) in
        let (item, rest) = popped-injective (sym took.returned ∙ h) in
        (get! q.items 0, item, subst (λ s. Took q (get! q.items 0) s) rest took)
    | inr none_left ↦ absurd (ground (arith, queue_pop_empty q))
  ]

  module _ (preorder : IsPreorder cmp) where
    abbrev total : IsPreorder (by_item cmp)
    total = by_item-IsPreorder cmp preorder

    removed_root-IsSinking :
        (q : Queue A) → IsValid cmp q → IsSinking (by_item cmp) (removed_root q) 0
    removed_root-IsSinking q v =
        let n = queue_size q - 1 in
        let moved = set q.items 0 (get! q.items n) in
        let size = length-take n moved in
        let kept = get!-take n moved in
        let at = λ (c : ℕ). get!-set q.items 0 c (get! q.items n) in
        record {
          edges = λ c p q' r. ground (
            arith,
            size,
            length-set q.items 0 (get! q.items n),
            v.heap c,
            at c,
            at (parent c),
            kept c,
            kept (parent c),
          );
          bridged = λ c p q' r s. absurd (omega arith);
        }

    sifted-IsHeap : (q : Queue A) → IsValid cmp q → IsHeap (by_item cmp) (sifted q)
    sifted-IsHeap q v = elim (Bool-cases (ltb 0 (length (removed_root q)))) [
      | inl more ↦ rw more (
          heapify_down-IsHeap (by_item cmp) total (removed_root q) 0 (ground arith)
            (removed_root-IsSinking q v))
      | inr done ↦ rw done (λ c p h. absurd (ground arith))
    ]

    root_largest_of_mem :
        (x : PriorityItem A) (a : List (PriorityItem A))
        → ((i : ℕ) → i < length a → ge_zero (by_item cmp x (get! a i)) ≡ true)
        → (e : PriorityItem A) → Mem e a
        → ge_zero (by_item cmp x e) ≡ true
    unfolding get!
    root_largest_of_mem x [] h = λ e m. absurd (not-mem-nil m)
    root_largest_of_mem x (y ∷ a) h =
        (forall_mem-cons λ e. Bool-set _ _).1
          (h 0 (omega arith), root_largest_of_mem x a λ i p. h (suc i) (omega arith))

    -- A pop of a valid queue that is not empty returns an entry that compares at least as large as
    -- every entry, and leaves a valid queue of exactly the others.
    pub queue_pop_largest :
        (q : Queue A)
        → IsValid cmp q
        → 0 < queue_size q
        → (entry : PriorityItem A) × (r : Queue A) × Took q entry r
          × IsValid cmp r
          × ((e : PriorityItem A) → Mem e q.items → ge_zero (cmp entry.item e.item) ≡ true)
    queue_pop_largest q v h =
        let took = queue_pop-Took q h in
        (
          get! q.items 0,
          record q { items = sifted q },
          took,
          record { heap = sifted-IsHeap q v; bounded = omega (arith, length-perm took.others) },
          root_largest_of_mem (get! q.items 0) q.items
              (λ i. root_largest (by_item cmp) total q.items i v.heap),
        )

    -- A pop that returns leaves a valid queue valid.
    pub queue_pop-IsValid :
        (q : Queue A) (x : A) (r : Queue A)
        → queue_pop cmp q ≡ popped x r
        → IsValid cmp q
        → IsValid cmp r
    queue_pop-IsValid q x r h v = elim (Bool-cases (ltb 0 (queue_size q))) [
      | inl more ↦
          let (entry, s, took, valid, _) = queue_pop_largest q v (ground arith) in
          let (_, rest) = popped-injective (sym took.returned ∙ h) in
          subst (λ t. IsValid cmp t) rest valid
      | inr none_left ↦ absurd (ground (arith, queue_pop_empty q))
    ]

  -- A peek shows exactly the item that a pop would return.
  pub queue_peek-pop :
      (q : Queue A) (x : A)
      → (queue_peek q ≡ some x) ↔ ((r : Queue A) × (queue_pop cmp q ≡ popped x r))
  unfolding queue_peek
  queue_peek-pop q x = elim (Bool-cases (ltb 0 (queue_size q))) [
    | inl more ↦
        let e = queue_pop-popped q (ground arith) in
        (λ h. (record q { items = sifted q }, ground (arith, e)), λ (r, h). ground (arith, e))
    | inr empty ↦ (λ h. absurd (ground arith), λ (r, h). absurd (ground (arith, queue_pop_empty q)))
  ]
