-- ===== src/Heap/Up.antt =====
-- heapify_up of src/queue.c.
use mathlib.Core.List.Perm
use os_lab.Prelude.{
  ℕ, zero, suc, ◌+◌, ◌<◌, ◌≡◌, ◌≢◌, false, inl, inr, List, Perm, ℤ, ge_zero, length, Inhabited,
  get!, swap, length-swap, get!-swap, swap-perm, arith, ltb, Bool-cases,
}
use os_lab.Heap.{parent, heapify_up_loop, heapify_up}
use os_lab.Heap.Order.{IsPreorder, AtLeast, IsHeap, IsBridged}

module _ {ℓ} {E : Type ℓ} ⦃inhabited : Inhabited E⦄ (cmp : E → E → ℤ) where
  -- The entry at `i` may be too low in the tree: all other edges are in order, and so are the pairs
  -- of its parent and its children.
  pub record IsRising (a : List E) (i : ℕ) : Type 0 where
    pub bridged : IsBridged cmp a i
    pub edges : (c : ℕ) → c ≢ i → 0 < c → c < length a → AtLeast cmp a (parent c) c
    pub inside : i < length a

  -- The loop only moves entries.
  heapify_up_loop-perm :
      (fuel : ℕ) (a : List E) (i : ℕ) → i < length a → Perm (heapify_up_loop cmp fuel a i) a
  unfolding heapify_up_loop
  heapify_up_loop-perm zero a i hi = Perm.refl a
  heapify_up_loop-perm (suc fuel) a i hi =
      let b = swap a (parent i) i in
      let above : parent i < length a = omega arith in
      let inside : parent i < length b = omega (arith, length-swap a (parent i) i) in
      let rest =
        Perm.trans (heapify_up_loop-perm fuel b (parent i) inside)
          (swap-perm a (parent i) i above hi) in
      elim (Bool-cases (ltb 0 i)) [
        | inr root ↦ rw root (Perm.refl a)
        | inl pos ↦ elim (Bool-cases (ge_zero (cmp (get! a (parent i)) (get! a i)))) [
          | inl settled ↦ rw (pos, settled) (Perm.refl a)
          | inr below ↦ rw (pos, below) rest
        ]
      ]

  pub heapify_up-perm : (a : List E) (i : ℕ) → i < length a → Perm (heapify_up cmp a i) a
  unfolding heapify_up
  heapify_up-perm a i = heapify_up_loop-perm (i + 1) a i

  -- More fuel than the index is enough: the loop ends by its tests, whatever the fuel.
  pub heapify_up_loop-fuel :
      (fuel more : ℕ) (a : List E) (i : ℕ)
      → i < fuel
      → i < more
      → heapify_up_loop cmp fuel a i ≡ heapify_up_loop cmp more a i
  unfolding heapify_up_loop
  heapify_up_loop-fuel zero more a i f m = absurd (omega arith)
  heapify_up_loop-fuel (suc fuel) zero a i f m = absurd (omega arith)
  heapify_up_loop-fuel (suc fuel) (suc more) a i f m =
      let ih = heapify_up_loop-fuel fuel more (swap a (parent i) i) (parent i) in
      elim (Bool-cases (ltb 0 i)) [
        | inr root ↦ rw root
        | inl pos ↦ elim (Bool-cases (ge_zero (cmp (get! a (parent i)) (get! a i)))) [
          | inl settled ↦ rw (pos, settled)
          | inr below ↦ rw (pos, below) (ih (ground arith) (ground arith))
        ]
      ]

  module _ (preorder : IsPreorder cmp) where
    open preorder use {trans, flip_ge}

    swap-IsRising :
        (a : List E) (i : ℕ)
        → IsRising a i
        → 0 < i
        → ge_zero (cmp (get! a (parent i)) (get! a i)) ≡ false
        → IsRising (swap a (parent i) i) (parent i)
    swap-IsRising a i v pos below =
        let above : parent i < length a = omega arith in
        let at = get!-swap a (parent i) i above v.inside in
        let size = length-swap a (parent i) i in
        let risen = flip_ge _ _ below in
        record {
          inside = omega arith;
          edges = λ c p q r. ground (
            arith,
            size,
            risen,
            at c,
            at (parent c),
            v.edges c,
            v.bridged c,
            trans (get! a i) (get! a (parent i)) (get! a c),
          );
          bridged = λ c p q r s. ground (
            arith,
            size,
            at c,
            at (parent (parent i)),
            v.edges c,
            v.edges (parent i),
            trans (get! a (parent (parent i))) (get! a (parent i)) (get! a c),
          );
        }

    heapify_up_loop-IsHeap :
        (fuel : ℕ) (a : List E) (i : ℕ)
        → i < fuel
        → IsRising a i
        → IsHeap cmp (heapify_up_loop cmp fuel a i)
    unfolding heapify_up_loop
    heapify_up_loop-IsHeap zero a i f v = absurd (omega arith)
    heapify_up_loop-IsHeap (suc fuel) a i f v = elim (Bool-cases (ltb 0 i)) [
      | inr root ↦ rw root (λ c p q. v.edges c (ground arith) p q)
      | inl pos ↦ elim (Bool-cases (ge_zero (cmp (get! a (parent i)) (get! a i)))) [
        | inl settled ↦ rw (pos, settled) (λ c p q. ground (arith, v.edges c))
        | inr below ↦
            let up : 0 < i = ground arith in
            rw (pos, below)
              (heapify_up_loop-IsHeap fuel (swap a (parent i) i) (parent i) (omega arith)
                (swap-IsRising a i v up below))
      ]
    ]

    -- An array with one entry too low in the tree becomes a heap.
    pub heapify_up-IsHeap : (a : List E) (i : ℕ) → IsRising a i → IsHeap cmp (heapify_up cmp a i)
    unfolding heapify_up
    heapify_up-IsHeap a i v = heapify_up_loop-IsHeap (i + 1) a i (omega arith) v
