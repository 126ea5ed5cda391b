-- ===== src/Heap/Down.antt =====
-- heapify_down of src/queue.c.
use mathlib.Core.List.Perm
use os_lab.Prelude.{
  ℕ, zero, suc, ◌+◌, ◌-◌, ◌*◌, ◌<◌, ◌≡◌, ◌≢◌, ◌⊎◌, inl, inr, List, Perm, ℤ, gt_zero→ge_zero, length,
  Inhabited, get!, swap, length-swap, get!-swap, swap-perm, arith, ◌==◌, Bool-cases,
}
use os_lab.Heap.{parent, larger, largest_of, heapify_down_loop, heapify_down}
use os_lab.Heap.Order.{IsPreorder, AtLeast, IsHeap, IsBridged, cmp_self}

module _ {ℓ} {E : Type ℓ} ⦃inhabited : Inhabited E⦄ (cmp : E → E → ℤ) where
  -- Only the edges below `i` may be out of order.
  pub record IsSinking (a : List E) (i : ℕ) : Type 0 where
    pub edges : (c : ℕ) → 0 < c → c < length a → parent c ≢ i → AtLeast cmp a (parent c) c
    pub bridged : IsBridged cmp a i

  -- `m` is `i` or a child of `i` inside the array.
  record IsBelow (a : List E) (i m : ℕ) : Type 0 where
    inside : m < length a
    child : (m ≡ i) ⊎ ((m ≡ 2 * i + 1) ⊎ (m ≡ 2 * i + 2))

  largest_of-IsBelow : (a : List E) (i : ℕ) → i < length a → IsBelow a i (largest_of cmp a i)
  unfolding largest_of larger
  largest_of-IsBelow a i h = ground arith

  -- The loop only moves entries.
  heapify_down_loop-perm :
      (fuel : ℕ) (a : List E) (i : ℕ) → i < length a → Perm (heapify_down_loop cmp fuel a i) a
  unfolding heapify_down_loop
  heapify_down_loop-perm zero a i h = Perm.refl a
  heapify_down_loop-perm (suc fuel) a i h =
      let m = largest_of cmp a i in
      let below = largest_of-IsBelow a i h in
      let inside : m < length (swap a i m) = omega (arith, length-swap a i m) in
      let rest =
        Perm.trans (heapify_down_loop-perm fuel (swap a i m) m inside)
          (swap-perm a i m h below.inside) in
      elim (Bool-cases (m == i)) [ inl done ↦ rw done (Perm.refl a) | inr more ↦ rw more rest ]

  pub heapify_down-perm : (a : List E) (i : ℕ) → i < length a → Perm (heapify_down cmp a i) a
  unfolding heapify_down
  heapify_down-perm a i = heapify_down_loop-perm (length a + 1) a i

  -- More fuel than entries behind the index is enough: the loop ends by its test, whatever the fuel.
  pub heapify_down_loop-fuel :
      (fuel more : ℕ) (a : List E) (i : ℕ)
      → i < length a
      → length a - i < fuel
      → length a - i < more
      → heapify_down_loop cmp fuel a i ≡ heapify_down_loop cmp more a i
  unfolding heapify_down_loop
  heapify_down_loop-fuel zero more a i h f m = absurd (omega arith)
  heapify_down_loop-fuel (suc fuel) zero a i h f m = absurd (omega arith)
  heapify_down_loop-fuel (suc fuel) (suc more) a i h f m =
      let below = largest_of-IsBelow a i h in
      ground (
        arith,
        length-swap a i (largest_of cmp a i),
        heapify_down_loop-fuel fuel more (swap a i (largest_of cmp a i)) (largest_of cmp a i),
      )

  module _ (preorder : IsPreorder cmp) where
    open preorder use {trans, flip_gt}

    -- `larger` compares at least as large as both its entries.
    larger_bounds :
        (a : List E) (child largest : ℕ)
        → AtLeast cmp a (larger cmp a child largest) largest
          × (child < length a → AtLeast cmp a (larger cmp a child largest) child)
    unfolding larger
    larger_bounds a child largest = ground (
      arith,
      cmp_self cmp preorder (get! a largest),
      cmp_self cmp preorder (get! a child),
      flip_gt (get! a child) (get! a largest),
      gt_zero→ge_zero (cmp (get! a child) (get! a largest)),
    )

    -- Among an entry and its children, `largest_of` compares the largest.
    largest_of_bounds :
        (a : List E) (i : ℕ)
        → AtLeast cmp a (largest_of cmp a i) i
          × ((c : ℕ) → 0 < c → c < length a → parent c ≡ i → AtLeast cmp a (largest_of cmp a i) c)
    unfolding largest_of
    largest_of_bounds a i =
        let m = larger cmp a (2 * i + 1) i in
        let left = larger_bounds a (2 * i + 1) i in
        let right = larger_bounds a (2 * i + 2) m in
        let over = trans (get! a (larger cmp a (2 * i + 2) m)) (get! a m) in
        (over _ right.0 left.0, λ c p q r. ground (arith, over (get! a c) right.0))

    swap-IsSinking :
        (a : List E) (i m : ℕ)
        → i < length a
        → IsSinking a i
        → IsBelow a i m
        → m ≢ i
        → AtLeast cmp a m i
        → ((c : ℕ) → 0 < c → c < length a → parent c ≡ i → AtLeast cmp a m c)
        → IsSinking (swap a i m) m
    swap-IsSinking a i m h v s ne over least =
        let size = length-swap a i m in
        let at = get!-swap a i m h s.inside in
        record {
          edges =
              λ c p q r. ground (arith, size, at c, at (parent c), v.edges c, v.bridged m, least c);
          bridged = λ c p q r t. ground (arith, size, at c, at (parent m), v.edges c);
        }

    heapify_down_loop-IsHeap :
        (fuel : ℕ) (a : List E) (i : ℕ)
        → i < length a
        → length a - i < fuel
        → IsSinking a i
        → IsHeap cmp (heapify_down_loop cmp fuel a i)
    unfolding heapify_down_loop
    heapify_down_loop-IsHeap zero a i h f v = absurd (omega arith)
    heapify_down_loop-IsHeap (suc fuel) a i h f v =
        let m = largest_of cmp a i in
        let s = largest_of-IsBelow a i h in
        let (over, least) = largest_of_bounds a i in
        let size = length-swap a i m in
        elim (Bool-cases (m == i)) [
          | inl done ↦ rw done (λ c p q. ground (arith, v.edges c, least c))
          | inr more ↦
              let ne : m ≢ i = ground arith in
              rw more (
                heapify_down_loop-IsHeap fuel (swap a i m) m (omega arith) (omega arith)
                  (swap-IsSinking a i m h v s ne over least))
        ]

    -- An array with one entry too high in the tree becomes a heap.
    pub heapify_down-IsHeap :
        (a : List E) (i : ℕ) → i < length a → IsSinking a i → IsHeap cmp (heapify_down cmp a i)
    unfolding heapify_down
    heapify_down-IsHeap a i h v = heapify_down_loop-IsHeap (length a + 1) a i h (omega arith) v
