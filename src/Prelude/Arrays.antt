-- ===== src/Prelude/Arrays.antt =====
-- Arrays as lists. An index inside an array splits it, and reads, writes and exchanges are proved by
-- the splitting.
use Prim.Native.Nat.{ℕ, zero, suc, ◌<◌}
use mathlib.Core.Path.{◌≡◌, refl, sym, ap, ◌∙◌}
use mathlib.Core.List.{List, [], ◌∷◌, ◌++◌, Mem, not-mem-nil, Perm, Permᴰ, perm_middle, append-nil}
use mathlib.Core.List
use mathlib.Core.List.Perm
use mathlib.Core.Nat
use native.Mathlib.Omega.{arith}
use os_lab.Prelude.Tests.{◌==◌, if◌then◌else◌}
use os_lab.Prelude.Lists.{length, take, drop, drop_all}

-- What a read past the end would give. The theorems on the queue keep every index in range.
pub record Inhabited {ℓ} (A : Type ℓ) : Type ℓ where
  pub default : A

module _ {ℓ} {A : Type ℓ} ⦃inhabited : Inhabited A⦄ where
  unfoldable pub get! : List A → ℕ → A
  get! (e ∷ _) zero = e
  get! (_ ∷ es) (suc k) = get! es k
  get! [] _ = inhabited.default

  abbrev pub set : List A → ℕ → A → List A
  set (_ ∷ es) zero new = new ∷ es
  set (e ∷ es) (suc k) new = e ∷ set es k new
  set [] _ _ = []

  -- `swap_items` of src/queue.c, by its three assignments.
  unfoldable pub swap : List A → ℕ → ℕ → List A
  unfolding get!
  swap es k m = let temp = get! es k in set (set es k (get! es m)) m temp

  split_at : (k : ℕ) (es : List A) → k < length es → es ≡ take k es ++ get! es k ∷ drop (suc k) es
  unfolding get!
  split_at zero (e ∷ es) inside = refl
  split_at (suc k) (e ∷ es) inside = ap (◌∷◌ e) (split_at k es (omega arith))
  split_at k [] inside = ground arith

  set_split :
      (k : ℕ) (es : List A) (new : A)
      → k < length es
      → set es k new ≡ take k es ++ new ∷ drop (suc k) es
  set_split zero (e ∷ es) new inside = refl
  set_split (suc k) (e ∷ es) new inside = ap (◌∷◌ e) (set_split k es new (omega arith))
  set_split k [] new inside = ground arith

  pub length-set : (es : List A) (k : ℕ) (new : A) → length (set es k new) ≡ length es
  length-set (e ∷ es) (suc k) new = omega (arith, length-set es k new)
  length-set (e ∷ es) zero new = refl
  length-set [] k new = refl

  -- A write can be seen at its own index only.
  pub get!-set :
      (es : List A) (k m : ℕ) (new : A)
      → k < length es
      → get! (set es k new) m ≡ (if k == m then new else get! es m)
  unfolding get!
  get!-set (e ∷ es) (suc k) (suc m) new inside = ground (arith, get!-set es k m new (omega arith))
  get!-set (e ∷ es) (suc k) zero new inside = ground arith
  get!-set (e ∷ es) zero (suc m) new inside = ground arith
  get!-set (e ∷ es) zero zero new inside = ground arith
  get!-set [] k m new inside = ground arith

  pub get!-append :
      (front back : List A) (k : ℕ) → k < length front → get! (front ++ back) k ≡ get! front k
  unfolding get!
  get!-append (e ∷ front) back (suc k) inside = get!-append front back k (omega arith)
  get!-append (e ∷ front) back zero inside = refl
  get!-append [] back k inside = ground arith

  pub get!-take : (n : ℕ) (es : List A) (k : ℕ) → k < n → get! (take n es) k ≡ get! es k
  unfolding get!
  get!-take (suc n) (e ∷ es) (suc k) below = get!-take n es k (omega arith)
  get!-take (suc n) (e ∷ es) zero below = refl
  get!-take (suc n) [] k below = refl
  get!-take zero es k below = ground arith

  pub take-append-get! :
      (n : ℕ) (es : List A) → length es ≡ suc n → take n es ++ get! es n ∷ [] ≡ es
  take-append-get! n es size =
      let all = drop_all (suc n) es (omega arith) in rw all at (sym (split_at n es (omega arith)))

  pub concat-perm : (es : List A) (e : A) → Perm (es ++ e ∷ []) (e ∷ es)
  concat-perm es e = rw (append-nil es) at (perm_middle {a = e} es [])

  -- Exchanging what a split has in its middle.
  middle-perm : (old new : A) (l r : List A) → Perm (old ∷ (l ++ new ∷ r)) (new ∷ (l ++ old ∷ r))
  middle-perm old new l r =
      Perm.trans (Perm.cons old (perm_middle l r))
        (Perm.trans (Perm.swap new old (l ++ r)) (Perm.cons new (Perm.symm (perm_middle l r))))

  -- An array with one entry overwritten has the new entry in place of the old.
  written-perm :
      (es : List A) (k : ℕ) (new : A) → k < length es → Perm (get! es k ∷ set es k new) (new ∷ es)
  written-perm es k new inside =
      let moved = middle-perm (get! es k) new (take k es) (drop (suc k) es) in
      rw (← set_split k es new inside, ← split_at k es inside) at moved

  -- The last entry, written over entry `k`, and no longer in its own place: entry `k` is gone.
  pub drop_last-perm :
      (es : List A) (n k : ℕ)
      → length es ≡ suc n
      → k < length es
      → Perm (get! es k ∷ take n (set es k (get! es n))) es
  drop_last-perm es n k size inside =
      let end = get! es n in
      let over = set es k end in
      let ends : get! over n ≡ end = ground (arith, get!-set es k n end inside) in
      let whole : take n over ++ end ∷ [] ≡ over =
        rw ends at (take-append-get! n over (length-set es k end ∙ size)) in
      let front : Perm (end ∷ take n over) over =
        Perm.trans (Perm.symm (concat-perm (take n over) end)) (rw whole (Perm.refl over)) in
      let both : Perm (end ∷ get! es k ∷ take n over) (end ∷ es) =
        Perm.trans (Perm.swap (get! es k) end (take n over))
          (Perm.trans (Perm.cons (get! es k) front) (written-perm es k end inside)) in
      Perm.cons_inv both

  pub length-swap : (es : List A) (k m : ℕ) → length (swap es k m) ≡ length es
  unfolding swap
  length-swap es k m = length-set (set es k (get! es m)) m (get! es k) ∙ length-set es k (get! es m)

  pub get!-swap :
      (es : List A) (k m : ℕ)
      → k < length es
      → m < length es
      → (at : ℕ)
      → get! (swap es k m) at
        ≡ (if m == at then get! es k else if k == at then get! es m else get! es at)
  unfolding swap
  get!-swap es k m first second at =
      let once = set es k (get! es m) in
      let inside : m < length once = rw (length-set es k (get! es m)) second in
      rw (get!-set once m at (get! es k) inside, get!-set es k at (get! es m) first)

  -- The two writes of an exchange trade the first entry for the second, and back.
  pub swap-perm : (es : List A) (k m : ℕ) → k < length es → m < length es → Perm (swap es k m) es
  unfolding swap
  swap-perm es k m first second =
      let once = set es k (get! es m) in
      let inside : m < length once = rw (length-set es k (get! es m)) second in
      let still : get! once m ≡ get! es m = ground (arith, get!-set es k m (get! es m) first) in
      let back : Perm (get! es m ∷ set once m (get! es k)) (get! es k ∷ once) =
        rw still at (written-perm once m (get! es k) inside) in
      Perm.cons_inv (Perm.trans back (written-perm es k (get! es m) first))

-- The library's numbers as native ones.
native_of : Nat.ℕ → ℕ
native_of Nat.zero = 0
native_of (Nat.suc n) = suc (native_of n)

module _ {ℓ} {A : Type ℓ} where
  -- A list with a member is not empty.
  pub length_of_mem : {x : A} (a : List A) → Mem x a → 0 < length a
  length_of_mem [] m = absurd (not-mem-nil m)
  length_of_mem (y ∷ a) m = omega arith

  native_of-length : (es : List A) → native_of (List.length es) ≡ length es
  unfolding native_of
  native_of-length [] = refl
  native_of-length (e ∷ es) = ap suc (native_of-length es)

  pub length-perm : {es fs : List A} → Perm es fs → length es ≡ length fs
  length-perm {es} {fs} p =
      sym (native_of-length es) ∙ ap native_of (Perm.length-eq p) ∙ native_of-length fs
