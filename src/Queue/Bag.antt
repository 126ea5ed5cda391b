-- ===== src/Queue/Bag.antt =====
-- A priority queue of src/queue.c as a multiset of items: the array and its order are forgotten.
use mathlib.Core.Bool.{Bool-set}
use mathlib.Core.List.{mem-map}
use mathlib.Core.List.Perm
use mathlib.Core.Logic.{∥∥₁_elim}
use mathlib.Core.Path.{subst}
use mathlib.Core.Quot.{sound}
use mathlib.Mathlib.Data.Multiset.Defs.{Multiset, of_list, mem-coe}
use mathlib.Mathlib.Data.Multiset.Defs as Multiset
use mathlib.Mathlib.Data.Multiset.ZeroCons.{cons}
use os_lab.Prelude.{
  ◌≡◌, sym, ap, ◌∙◌, Bool, true, false, List, ◌∷◌, map, Mem, Perm, ℤ, ge_zero, Inhabited, arith,
  inl, inr, ltb, Bool-cases,
}
use os_lab.Heap.Order.{IsPreorder}
use os_lab.Queue.{PriorityItem, Queue, queue_size, popped, queue_push, queue_pop, IsValid}
use os_lab.Queue.Insert.{queue_push_accepted, queue_push-true, queue_push-false}
use os_lab.Queue.Remove.{queue_pop_largest, queue_pop_empty, popped-injective}
use os_lab.Queue.History.{Log, held, Step, pushes, refuses, pops, closes, Reach, Reach-IsValid}

-- What a client of the queue can tell: its items, and whether it is closed.
pub record Bag {ℓ} (A : Type ℓ) : Type ℓ where
  pub items : Multiset A
  pub closed : Bool

abbrev pub bag {ℓ} : {A : Type ℓ} → Queue A → Bag A
bag q = record { items = of_list (held q); closed = q.closed }

module _ {ℓ} {A : Type ℓ} ⦃inhabited : Inhabited A⦄ (cmp : A → A → ℤ) where
  abbrev pub Takes : A → Bag A → Bag A → Type ℓ
  Takes item b c =
      (rest : Multiset A) × (b.items ≡ cons item rest)
      × ((y : A) → Multiset.Mem b.items y → ge_zero (cmp item y) ≡ true)
      × (c ≡ record { items = rest; closed = b.closed })

  -- What a step promises of the bag before it and the bag behind it. A push that returns true finds an
  -- open bag and adds its item. A push that returns false changes nothing. A pop that returns an item
  -- takes that item out, which compares at least as large as every item that was there. A
  -- close closes the bag and changes nothing else.
  abbrev pub Does : {l m : Log A} → Step cmp l m → Bag A → Bag A → Type ℓ
  Does (pushes allocated item priority done e) b c =
      (b.closed ≡ false) × (c ≡ record { items = cons item b.items; closed = false })
  Does (refuses allocated item priority refused e) b c = c ≡ b
  Does (pops item q pop e) b c = Takes item b c
  Does (closes e) b c = c ≡ record { items = b.items; closed = true }

  -- Two queues with the same items, open or closed alike, are one bag.
  bag-cong :
      (q : Queue A) (items : List A) (closed : Bool)
      → Perm (held q) items
      → q.closed ≡ closed
      → bag q ≡ record { items = of_list items; closed = closed }
  bag-cong q items closed same is = λ i. record { items = sound same i; closed = is i }

  over_bag :
      (entry : A) (items : List (PriorityItem A))
      → ((e : PriorityItem A) → Mem e items → ge_zero (cmp entry e.item) ≡ true)
      → (y : A) → Multiset.Mem (of_list (map (λ e. e.item) items)) y
      → ge_zero (cmp entry y) ≡ true
  over_bag entry items over y m =
      ∥∥₁_elim (mem-map.0 m) (Bool-set _ _)
        (λ t. ap (λ z. ge_zero (cmp entry z)) (sym t.2) ∙ over t.0 t.1)

  module _ (preorder : IsPreorder cmp) where
    popped-Takes :
        (q r : Queue A) (item : A)
        → IsValid cmp q
        → queue_pop cmp q ≡ popped item r
        → Takes item (bag q) (bag r)
    popped-Takes q r item v pop = elim (Bool-cases (ltb 0 (queue_size q))) [
      | inr none_left ↦ absurd (ground (arith, queue_pop_empty cmp q))
      | inl more ↦
          let (entry, s, took, _, over) = queue_pop_largest cmp preorder q v (ground arith) in
          let (same_item, rest) = popped-injective (sym took.returned ∙ pop) in
          let all = Perm.map (λ (e : PriorityItem A). e.item) (Perm.symm took.others) in
          let left : bag s ≡ record { items = of_list (held s); closed = q.closed } =
            bag-cong s (held s) q.closed (Perm.refl (held s)) took.same_closed in
          subst (λ x. Takes x (bag q) (bag r)) same_item
            (
              of_list (held s),
              sound all,
              over_bag entry.item q.items over,
              sym (ap bag rest) ∙ left,
            )
    ]

    -- After any pushes, pops and closes, with a comparison that is a total preorder, each next step
    -- does to the multiset of the items what it promises: a push that returns true finds the queue
    -- open and adds its item; a push that returns false changes nothing; a pop removes exactly the
    -- item that it returns, once, and that item compares at least as large as every item that was
    -- there; a close keeps the items and closes the queue.
    pub Step-Does :
        {l m : Log A} → Reach cmp l → (step : Step cmp l m) → Does step (bag l.queue) (bag m.queue)
    Step-Does {l} {m} reach (pushes allocated item priority done e) =
        let q = l.queue in
        let v = Reach-IsValid cmp preorder reach in
        let taken = queue_push-true cmp allocated q item priority done in
        let (_, added, is_open, _) =
          queue_push_accepted cmp allocated q item priority taken v.bounded in
        (
          taken.0,
          ap (λ x. bag x.queue) e
              ∙ bag-cong (queue_push cmp allocated q item priority).0 (item ∷ held q) false
                  (Perm.map (λ (e : PriorityItem A). e.item) added) is_open,
        )
    Step-Does {l} reach (refuses allocated item priority refused e) =
        ap (λ x. bag x.queue) e
        ∙ ap bag (queue_push-false cmp allocated l.queue item priority refused)
    Step-Does {l} reach (pops item q pop e) =
        rw e (popped-Takes l.queue q item (Reach-IsValid cmp preorder reach) pop)
    Step-Does reach (closes e) = ap (λ x. bag x.queue) e
