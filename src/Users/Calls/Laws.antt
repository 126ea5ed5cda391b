-- ===== src/Users/Calls/Laws.antt =====
-- How the loops over the accounts of src/user_db.c run.
use os_lab.Prelude.{
  ℕ, ◌<◌, ◌≡◌, refl, ◌∙◌, true, List, [], ◌∷◌, ◌++◌, none, some, Bytes, str_eq, length, inl, inr,
  arith, Bool-cases, ltb,
}
use os_lab.Users.{InMemoryUser}
use os_lab.Users.Held.{Call, Held, call, run, live, release, visit}
use os_lab.Users.Calls.{search_calls, free_users}

-- Where the accounts of a list are.
unfoldable pub addresses {ℓ} : {A : Type ℓ} → List A → List ℕ
addresses [] = []
addresses (user ∷ users) = length users ∷ addresses users

pub live-addresses :
    (users : List InMemoryUser) (p : ℕ) → live p (addresses users) ≡ ltb p (length users)
unfolding addresses live
live-addresses [] p = ground arith
live-addresses (user ∷ users) p = ground (arith, live-addresses users p)

pub run-append :
    (xs ys : List Call) (h h' : Held) → run xs h ≡ some h' → run (xs ++ ys) h ≡ run ys h'
unfolding run
run-append [] ys h h' e = ground arith
run-append (c ∷ xs) ys h h' e =
    elim (call c h)
        as (λ o.
          (elim o [ none ↦ none | some g ↦ run xs g ]) ≡ some h'
          → (elim o [ none ↦ none | some g ↦ run (xs ++ ys) g ]) ≡ run ys h') [
            | none ↦ λ e. ground arith
            | some g ↦ λ e. run-append xs ys g h' e
          ]
      e

pub run-visit :
    (p : ℕ) (calls : List Call) (h : Held)
    → h.is_locked ≡ true
    → live p h.accounts ≡ true
    → run (visit p ∷ calls) h ≡ run calls h
unfolding run
run-visit p calls h is_locked there = ground arith

-- The search reads live accounts only, with the mutex locked.
pub run-search :
    (users : List InMemoryUser) (name : Bytes) (calls : List Call) (h : Held)
    → h.is_locked ≡ true
    → ((p : ℕ) → p < length users → live p h.accounts ≡ true)
    → run (search_calls users name ++ calls) h ≡ run calls h
unfolding search_calls
run-search [] name calls h is_locked there = refl
run-search (user ∷ users) name calls h is_locked there =
    run-visit (length users) _ h is_locked (there (length users) (omega arith))
    ∙ (elim (Bool-cases (str_eq user.name name)) [
      | inl found ↦ rw found refl
      | inr other ↦
          rw other (run-search users name calls h is_locked (λ p less. there p (omega arith)))
    ])

-- The loop of `user_store_destroy` frees each account once, and reads none behind that.
pub run-free_users :
    (users : List InMemoryUser) (calls : List Call) (h : Held)
    → h.is_locked ≡ true
    → h.accounts ≡ addresses users
    → run (free_users users ++ calls) h ≡ run calls (record h { accounts = [] })
unfolding free_users run addresses live release
run-free_users [] calls h is_locked e = ground arith
run-free_users (user ∷ users) calls h is_locked e =
    ground
      (arith, run-free_users users calls (record h { accounts = addresses users }) is_locked refl)
