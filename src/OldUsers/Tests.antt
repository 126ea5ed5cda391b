-- ===== src/OldUsers/Tests.antt =====
-- The store of src/user.c run on concrete accounts.
use os_lab.Prelude.{◌≡◌, refl, true, false, List, [], ◌∷◌, none, some, codes, str_eq}
use os_lab.Priority.{low}
use os_lab.OldUsers.{
  UserStore, new_user, user_store_create, user_store_signup, user_store_lock_user, find_node, hold,
  granted,
}
use os_lab.OldUsers.Same.{
  Query, signs_up, logs_in, in_memory, old_answers, new_answers, old_answers-new,
}
use os_lab.Users.Tests.{lists, nothing, ann, secret_word}

abbrev empty : UserStore
empty = record { storage_root = codes "/srv"; head = []; user_count = 0 }

abbrev one_user : UserStore
one_user = record empty { head = new_user ann secret_word 100 ∷ []; user_count = 1 }

-- A root that fills the field is refused.
create_long : user_store_create 4 true true nothing (some (codes "/srv")) ≡ (nothing, none)
unfolding user_store_create
create_long = refl

signup_once :
    user_store_signup true false empty nothing ann secret_word 100 ≡ (one_user, nothing, true)
unfolding user_store_signup find_node
signup_once = refl

signup_twice :
    user_store_signup true false one_user nothing ann secret_word 100 ≡ (one_user, nothing, false)
unfolding user_store_signup find_node str_eq
signup_twice = refl

requests : List Query
requests =
    signs_up true true ann secret_word 100
    ∷ logs_in ann secret_word
    ∷ signs_up true true ann secret_word 100
    ∷ []

old_answers-new_example :
    new_answers lists low (in_memory lists low empty) nothing requests
    ≡ old_answers empty nothing requests
old_answers-new_example = old_answers-new lists low empty nothing requests

lock_granted : user_store_lock_user 7 one_user ann ≡ granted 0 (hold one_user 0 (some 7))
unfolding user_store_lock_user find_node str_eq
lock_granted = refl
