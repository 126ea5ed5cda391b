-- ===== src/Heap.antt =====
-- The sift loops of src/queue.c, over any entries and any comparison. An array is the list of its
-- entries below `size`. The fuel of a loop is a bound on its rounds.
pub mod Order
pub mod Up
pub mod Down
use os_lab.Prelude.{
  ℕ, zero, suc, ◌+◌, ◌-◌, ◌*◌, ◌/◌, Bool, true, false, List, ℤ, ge_zero, gt_zero, length, Inhabited,
  get!, swap, ltb, ◌==◌, if◌then◌else◌,
}

abbrev pub parent : ℕ → ℕ
parent index = (index - 1) / 2

module _ {ℓ} {E : Type ℓ} ⦃inhabited : Inhabited E⦄ (cmp : E → E → ℤ) where
  pub heapify_up_loop : ℕ → List E → ℕ → List E
  heapify_up_loop zero a index = a
  heapify_up_loop (suc fuel) a index =
      let rise = heapify_up_loop fuel (swap a (parent index) index) (parent index) in
      let step = if ge_zero (cmp (get! a (parent index)) (get! a index)) then a else rise in
      if ltb 0 index then step else a

  unfoldable pub heapify_up : List E → ℕ → List E
  unfolding heapify_up_loop get! swap
  heapify_up a index = heapify_up_loop (index + 1) a index

  -- The child at `child`, if it is inside and compares above the entry at `largest`.
  pub larger : List E → ℕ → ℕ → ℕ
  larger a child largest =
      if ltb child (length a)
      then (if gt_zero (cmp (get! a child) (get! a largest)) then child else largest)
      else largest

  pub largest_of : List E → ℕ → ℕ
  largest_of a index = larger a (2 * index + 2) (larger a (2 * index + 1) index)

  pub heapify_down_loop : ℕ → List E → ℕ → List E
  heapify_down_loop zero a index = a
  heapify_down_loop (suc fuel) a index =
      let largest = largest_of a index in
      let sink = heapify_down_loop fuel (swap a index largest) largest in
      if largest == index then a else sink

  unfoldable pub heapify_down : List E → ℕ → List E
  unfolding heapify_down_loop largest_of larger get! swap
  heapify_down a index = heapify_down_loop (length a + 1) a index
