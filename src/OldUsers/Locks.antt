-- ===== src/OldUsers/Locks.antt =====
-- The lock of an account of src/user.c.
use os_lab.Prelude.{
  ℕ, ◌<◌, ◌≡◌, ◌⊎◌, suc, refl, sym, ap, ap₂, ◌∙◌, true, false, List, [], ◌∷◌, Option, none, some,
  Bytes, inl, inr, Bool-cases, Option-cases, str_eq, length, arith, ◌==◌,
}
use os_lab.OldUsers.{
  User, UserStore, find_node, with_mutex, hold, blocks, granted, lock_node, user_store_lock_user,
  user_store_unlock_user,
}

abbrev Finds : List User → Bytes → ℕ → User → Type 0
Finds users name node user = find_node users name ≡ some (node, user)

pair_injective :
    {n m : ℕ} {u v : User}
    → ◌≡◌ {A = Option (ℕ × User)} (some (n, u)) (some (m, v))
    → (n ≡ m) × (u ≡ v)
pair_injective h = (cc, cc)

-- The search stops at the first node, or goes on behind it.
Finds-cons :
    (first : User) (users : List User) (name : Bytes) (node : ℕ) (user : User)
    → Finds (first ∷ users) name node user
    → ((str_eq first.name name ≡ true) × (length users ≡ node) × (first ≡ user))
      ⊎ ((str_eq first.name name ≡ false) × Finds users name node user)
unfolding find_node
Finds-cons first users name node user h = elim (Bool-cases (str_eq first.name name)) [
  | inl same ↦ let (at, is) = pair_injective (rw same at h) in inl (same, at, is)
  | inr other ↦ inr (other, rw other at h)
]

Finds-below :
    (users : List User) (name : Bytes) (node : ℕ) (user : User)
    → Finds users name node user
    → node < length users
unfolding find_node
Finds-below [] name node user h = absurd (ground (arith, h))
Finds-below (first ∷ users) name node user h = elim (Finds-cons first users name node user h) [
  | inl (_, here, _) ↦ omega arith
  | inr (_, later) ↦ let less = Finds-below users name node user later in omega arith
]

-- A search behind a change of the lock finds the same node, with the new holder.
Finds-with_mutex :
    (users : List User) (name : Bytes) (node : ℕ) (user : User) (holder : Option ℕ)
    → Finds users name node user
    → Finds (with_mutex node holder users) name node (record user { mutex = holder })
unfolding find_node with_mutex
Finds-with_mutex [] name node user holder h = absurd (ground (arith, h))
Finds-with_mutex (first ∷ users) name node user holder h =
    elim (Finds-cons first users name node user h) [
      | inl (same, here, is) ↦
          let at : (length users == node) ≡ true = ground arith in
          rw (at, same) (ap₂ (λ n u. some (n, record u { mutex = holder })) here is)
      | inr (other, later) ↦
          let less = Finds-below users name node user later in
          let past : (length users == node) ≡ false = ground arith in
          rw (past, other) (Finds-with_mutex users name node user holder later)
    ]

with_mutex-length :
    (users : List User) (node : ℕ) (holder : Option ℕ)
    → length (with_mutex node holder users) ≡ length users
unfolding with_mutex
with_mutex-length [] node holder = refl
with_mutex-length (first ∷ users) node holder = elim (Bool-cases (length users == node)) [
  | inl at ↦ rw at refl
  | inr past ↦ rw past (ap (suc) (with_mutex-length users node holder))
]

-- Taking the lock of a node and giving it back leaves a list in which it was free as it was.
with_mutex-with_mutex :
    (users : List User) (name : Bytes) (node : ℕ) (user : User) (holder : Option ℕ)
    → Finds users name node user
    → user.mutex ≡ none
    → with_mutex node none (with_mutex node holder users) ≡ users
unfolding find_node with_mutex
with_mutex-with_mutex [] name node user holder h free = refl
with_mutex-with_mutex (first ∷ users) name node user holder h free =
    elim (Finds-cons first users name node user h) [
      | inl (same, here, is) ↦
          let at : (length users == node) ≡ true = ground arith in
          rw (at, at) (ap (λ u. u ∷ users) (was_free first (ap (λ u. u.mutex) is ∙ free)))
      | inr (other, later) ↦
          let less = Finds-below users name node user later in
          let past : (length users == node) ≡ false = ground arith in
          let still : (length (with_mutex node holder users) == node) ≡ false =
            ap (λ n. n == node) (with_mutex-length users node holder) ∙ past in
          rw (past, still)
            (ap (λ us. first ∷ us) (with_mutex-with_mutex users name node user holder later free))
    ]
  where
    was_free : (u : User) → u.mutex ≡ none → record u { mutex = none } ≡ u
    was_free u h = λ i. record u { mutex = sym h i }

granted_injective : {n m : ℕ} {r s : UserStore} → granted n r ≡ granted m s → (n ≡ m) × (r ≡ s)
granted_injective h = (cc, cc)

-- A lock is granted where the search found an account whose lock is free.
lock_node-granted :
    (thread : ℕ) (store after : UserStore) (node : ℕ) (found : Option (ℕ × User))
    → lock_node thread store found ≡ granted node after
    → (user : User) × (found ≡ some (node, user))
      × (user.mutex ≡ none)
      × (after ≡ hold store node (some thread))
lock_node-granted thread store after node none h = absurd (ground (arith, h))
lock_node-granted thread store after node (some (at, user)) h = elim (Option-cases user.mutex) [
  | inl free ↦
      let (same, is) = granted_injective (rw free at h) in
      (
        user,
        ap (λ n. some (n, user)) same,
        free,
        sym is ∙ ap (λ n. hold store n (some thread)) same,
      )
  | inr (holder, held) ↦ absurd (ground (arith, rw held at h))
]

-- While a thread holds the lock that it was granted, every other call for the same name waits for
-- that account, and giving the lock back restores the store as it was.
pub unlock_user-lock_user :
    (thread other : ℕ) (store after : UserStore) (name : Bytes) (node : ℕ)
    → user_store_lock_user thread store name ≡ granted node after
    → (user_store_lock_user other after name ≡ blocks node)
      × (user_store_unlock_user after (some node) ≡ store)
unfolding user_store_lock_user user_store_unlock_user
unlock_user-lock_user thread other store after name node h =
    let (user, found, free, is) =
      lock_node-granted thread store after node (find_node store.head name) h in
    let now = Finds-with_mutex store.head name node user (some thread) found in
    let back = with_mutex-with_mutex store.head name node user (some thread) found free in
    (
      ap (λ s. lock_node other s (find_node s.head name)) is
          ∙ ap (lock_node other (hold store node (some thread))) now,
      ap (λ s. hold s node none) is ∙ ap (λ us. record store { head = us }) back,
    )
