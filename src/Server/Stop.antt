-- ===== src/Server/Stop.antt =====
-- How the accept loop of src/main.c ends.
use os_lab.Prelude.{
  ◌≡◌, refl, sym, ◌∙◌, ap, Bool, true, false, List, [], ◌∷◌, ◌++◌, ℤ, inl, inr, Bool-cases,
  if◌then◌else◌,
}
use os_lab.Task.{ClientInfo}
use os_lab.Responses.{ResponseQueueEntry}
use os_lab.Server.{ServerState, Event, sigint, handle_event, accept_loop, on_sigint}

module _ (cmp : ResponseQueueEntry → ResponseQueueEntry → ℤ)
    (cmp_clients : ClientInfo → ClientInfo → ℤ) where
  running_or_not :
      (running : Bool) (x y : ServerState) → running ≡ false → (if running then x else y) ≡ y
  running_or_not running x y h = rw h refl

  still_running :
      (running : Bool) (x y : ServerState) → running ≡ true → (if running then x else y) ≡ x
  still_running running x y h = rw h refl

  accept_loop-stopped :
      (events : List Event) (s : ServerState)
      → s.running ≡ false
      → accept_loop cmp cmp_clients events s ≡ s
  unfolding accept_loop
  accept_loop-stopped [] s h = refl
  accept_loop-stopped (e ∷ events) s h = running_or_not s.running _ _ h

  stopped_same : (s : ServerState) → s.running ≡ false → s ≡ on_sigint s
  stopped_same s h = ap (λ b. record s { running = b }) h

  -- Behind the signal the accept loop takes no connection: whatever comes later, the state is the one
  -- in which the signal found the server, with `running` cleared.
  pub accept_loop-sigint :
      (before after : List Event) (s : ServerState)
      → accept_loop cmp cmp_clients (before ++ sigint ∷ after) s
        ≡ on_sigint (accept_loop cmp cmp_clients before s)
  unfolding accept_loop
  accept_loop-sigint [] after s = elim (Bool-cases s.running) [
    | inl runs ↦ still_running s.running _ _ runs ∙ accept_loop-stopped after (on_sigint s) refl
    | inr stopped ↦ running_or_not s.running _ _ stopped ∙ stopped_same s stopped
  ]
  accept_loop-sigint (e ∷ before) after s = elim (Bool-cases s.running) [
    | inl runs ↦
        still_running s.running _ _ runs
        ∙ accept_loop-sigint before after (handle_event cmp cmp_clients e s)
        ∙ ap on_sigint (sym (still_running s.running _ _ runs))
    | inr stopped ↦
        running_or_not s.running _ _ stopped
        ∙ stopped_same s stopped
        ∙ ap on_sigint (sym (running_or_not s.running _ _ stopped))
  ]
