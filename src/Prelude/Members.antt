-- ===== src/Prelude/Members.antt =====
-- What holds of all entries of a list, in any order of them.
use mathlib.Core.List.{
  List, [], ◌∷◌, Mem, Perm, mem-cons, mem-cons_self, mem-cons_of_mem, not-mem-nil,
}
use mathlib.Core.List.Perm
use mathlib.Core.Logic.{∥∥₁_elim, inl, inr}
use os_lab.Prelude.Lists.{All}

module _ {ℓ κ} {A : Type ℓ} (P : A → Type κ) where
  pub Mem-All : (xs : List A) → ((x : A) → Mem x xs → P x) → All P xs
  Mem-All [] h = tt
  Mem-All (x ∷ xs) h = (h x mem-cons_self, Mem-All xs (λ y m. h y (mem-cons_of_mem x m)))

  module _ (prop : (x : A) → IsProp (P x)) where
    pub All-Mem : (xs : List A) → All P xs → (x : A) → Mem x xs → P x
    All-Mem [] all x m = absurd (not-mem-nil m)
    All-Mem (y ∷ xs) (first, all) x m =
        ∥∥₁_elim (mem-cons.0 m) (prop x)
          (λ c. elim c [ inl same ↦ rw same first | inr later ↦ All-Mem xs all x later ])

    pub All-Perm : {xs ys : List A} → Perm xs ys → All P xs → All P ys
    All-Perm {xs} {ys} same all = Mem-All ys (λ x m. All-Mem xs all x ((Perm.mem_iff same).1 m))

    pub All-prop : (xs : List A) → IsProp (All P xs)
    All-prop [] = hlevel
    All-prop (x ∷ xs) = hlevel (prop x, All-prop xs)
