-- ===== src/Heap/Order.antt =====
-- The order that the sift loops of src/queue.c keep.
use os_lab.Prelude.{
  ℕ, zero, suc, ◌<◌, ◌≡◌, true, false, List, ℤ, ge_zero, gt_zero, length, Inhabited, get!, arith,
}
use os_lab.Heap.{parent}

-- What the loops need of a comparison: its sign is that of a total preorder.
pub record IsPreorder {ℓ} {E : Type ℓ} (cmp : E → E → ℤ) : Type ℓ where
  pub flip_ge : (x y : E) → ge_zero (cmp x y) ≡ false → ge_zero (cmp y x) ≡ true
  pub flip_gt : (x y : E) → gt_zero (cmp x y) ≡ false → ge_zero (cmp y x) ≡ true
  pub trans :
      (x y z : E) → ge_zero (cmp x y) ≡ true → ge_zero (cmp y z) ≡ true → ge_zero (cmp x z) ≡ true

module _ {ℓ} {E : Type ℓ} ⦃inhabited : Inhabited E⦄ (cmp : E → E → ℤ) where
  -- Entry `i` compares at least as large as entry `j`.
  abbrev pub AtLeast : List E → ℕ → ℕ → Type 0
  AtLeast a i j = ge_zero (cmp (get! a i) (get! a j)) ≡ true

  -- Every entry compares at most as large as its parent.
  abbrev pub IsHeap : List E → Type 0
  IsHeap a = (c : ℕ) → 0 < c → c < length a → AtLeast a (parent c) c

  -- The entries past `i`, from its parent to its children, are in order.
  abbrev pub IsBridged : List E → ℕ → Type 0
  IsBridged a i = (c : ℕ) → 0 < c → c < length a → parent c ≡ i → 0 < i → AtLeast a (parent i) c

  module _ (preorder : IsPreorder cmp) where
    open preorder use {trans, flip_ge}

    pub cmp_self : (x : E) → ge_zero (cmp x x) ≡ true
    cmp_self x = ground (arith, flip_ge x x)

    root_largest_below :
        (k : ℕ) (a : List E) (i : ℕ) → IsHeap a → i < k → i < length a → AtLeast a 0 i
    root_largest_below zero a i h f p = absurd (omega arith)
    root_largest_below (suc k) a zero h f p = cmp_self (get! a zero)
    root_largest_below (suc k) a (suc i) h f p =
        trans (get! a 0) (get! a (parent (suc i))) (get! a (suc i))
          (root_largest_below k a (parent (suc i)) h (omega arith) (omega arith))
          (h (suc i) (omega arith) p)

    -- The root of a heap compares at least as large as every entry.
    pub root_largest : (a : List E) (i : ℕ) → IsHeap a → i < length a → AtLeast a 0 i
    root_largest a i h p = root_largest_below (suc i) a i h (omega arith) p
