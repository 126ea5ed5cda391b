-- ===== src/Queue/Drain.antt =====
-- The order in which the items of src/queue.c come out: one thread pops until it would wait or gets
-- NULL, as the loop of worker_thread_main in src/worker.c does on a closed queue.
use mathlib.Core.List.{Pairwise, mem-cons_of_mem, exists_of_mem-map}
use mathlib.Core.List.Perm
use mathlib.Core.Logic.{∥∥₁_elim}
use mathlib.Core.Bool.{Bool-set}
use os_lab.Prelude.{
  ℕ, zero, suc, ◌+◌, ◌<◌, ◌≡◌, inl, inr, true, List, [], ◌∷◌, Mem, Perm, ℤ, ge_zero, Inhabited,
  length-perm, arith, ltb, Bool-cases,
}
use os_lab.Heap.Order.{IsPreorder}
use os_lab.Queue.{PriorityItem, Queue, queue_size, waits, finished, popped, queue_pop, IsValid}
use os_lab.Queue.Remove.{queue_pop_largest, queue_pop_takes, queue_pop_empty}
use os_lab.Queue.History.{held}

module _ {ℓ} {A : Type ℓ} ⦃inhabited : Inhabited A⦄ (cmp : A → A → ℤ) where
  unfoldable pub drain_loop : ℕ → Queue A → List A
  drain_loop zero q = []
  drain_loop (suc fuel) q = elim (queue_pop cmp q) [
    | popped x r ↦ x ∷ drain_loop fuel r
    | waits ↦ []
    | finished ↦ []
  ]

  unfoldable pub drain : Queue A → List A
  unfolding drain_loop
  drain q = drain_loop (queue_size q + 1) q

  drain_loop-Perm :
      (fuel : ℕ) (q : Queue A) → queue_size q < fuel → Perm (drain_loop fuel q) (held q)
  unfolding drain_loop
  drain_loop-Perm zero q f = absurd (omega arith)
  drain_loop-Perm (suc fuel) q f = elim (Bool-cases (ltb 0 (queue_size q))) [
    | inl more ↦
        let (entry, r, took) = queue_pop_takes cmp q (ground arith) in
        let smaller = length-perm took.others in
        let all = Perm.map (λ (e : PriorityItem A). e.item) took.others in
        rw (took.returned, drain_loop)
          (Perm.trans (Perm.cons entry.item (drain_loop-Perm fuel r (omega arith))) all)
    | inr none_left ↦
        let nothing : q.items ≡ [] = grind arith in
        elim (Bool-cases q.closed) [
          | inl c ↦
              rw ((queue_pop_empty cmp q).1.1 (ground arith, c), drain_loop) (simp nothing Perm.nil)
          | inr c ↦
              rw ((queue_pop_empty cmp q).0.1 (ground arith, c), drain_loop) (simp nothing Perm.nil)
        ]
  ]

  -- Popping until nothing is left gives every item once, whatever the comparison.
  pub drain-Perm : (q : Queue A) → Perm (drain q) (held q)
  unfolding drain
  drain-Perm q = drain_loop-Perm (queue_size q + 1) q (omega arith)

  module _ (preorder : IsPreorder cmp) where
    above_held :
        (x : A) (q : Queue A)
        → ((e : PriorityItem A) → Mem e q.items → ge_zero (cmp x e.item) ≡ true)
        → (y : A) → Mem y (held q)
        → ge_zero (cmp x y) ≡ true
    above_held x q h y m =
        ∥∥₁_elim (exists_of_mem-map m) (Bool-set _ _) (λ (e, me, same). rw (← same) (h e me))

    drain_loop-empty : (fuel : ℕ) (q : Queue A) → queue_size q ≡ 0 → drain_loop (suc fuel) q ≡ []
    unfolding drain_loop
    drain_loop-empty fuel q h = elim (Bool-cases q.closed) [
      | inl c ↦ rw ((queue_pop_empty cmp q).1.1 (h, c), drain_loop)
      | inr c ↦ rw ((queue_pop_empty cmp q).0.1 (h, c), drain_loop)
    ]

    drain_loop_sorts :
        (fuel : ℕ) (q : Queue A)
        → queue_size q < fuel
        → IsValid cmp q
        → Pairwise (λ x y. ge_zero (cmp x y) ≡ true) (drain_loop fuel q)
          × Perm (drain_loop fuel q) (held q)
    unfolding drain_loop
    drain_loop_sorts zero q f v = absurd (omega arith)
    drain_loop_sorts (suc fuel) q f v = elim (Bool-cases (ltb 0 (queue_size q))) [
      | inl more ↦
          let (entry, r, took, valid, over) = queue_pop_largest cmp preorder q v (ground arith) in
          let smaller = length-perm took.others in
          let (sorted, same) = drain_loop_sorts fuel r (omega arith) valid in
          let all = Perm.map (λ (e : PriorityItem A). e.item) took.others in
          let whole = Perm.trans (Perm.cons entry.item same) all in
          rw (took.returned, drain_loop)
            (
              Pairwise.cons
                  (λ y m.
                    above_held entry.item q over y ((Perm.mem_iff whole).0 (mem-cons_of_mem _ m)))
                  sorted,
              whole,
            )
      | inr none_left ↦
          let nothing : q.items ≡ [] = grind arith in
          rw (drain_loop-empty fuel q (ground arith)) (Pairwise.nil, simp nothing Perm.nil)
    ]

    -- Popping until nothing is left gives every item once, each at least as large, in the
    -- comparison, as those that come out behind it.
    pub drain_sorts :
        (q : Queue A)
        → IsValid cmp q
        → Pairwise (λ x y. ge_zero (cmp x y) ≡ true) (drain q) × Perm (drain q) (held q)
    unfolding drain
    drain_sorts q v = drain_loop_sorts (queue_size q + 1) q (omega arith) v
