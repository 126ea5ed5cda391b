-- ===== src/ClientProgram/Program/Laws.antt =====
-- A whole run of src/client_program.c.
use os_lab.Prelude.{
  ℕ, ◌≡◌, refl, ◌∙◌, Bool, true, false, ◌&&◌, List, [], ◌∷◌, Option, none, some, Bytes, inl, inr,
  uint16, Bool-cases,
}
use os_lab.Disk.{Disk}
use os_lab.ClientProgram.Connection.{ClientState}
use os_lab.ClientProgram.Connection.Gate.{Gated}
use os_lab.ClientProgram.Interactive.{Outcomes, Buffers}
use os_lab.ClientProgram.Interactive.Login.{interactive_mode-Gated}
use os_lab.ClientProgram.Program.{
  Network, SocketCall, opens, closes, connect_from, connect_to_server, host_of, port_of, Run,
  run_session, main,
}

abbrev pub opened_sockets : List SocketCall → List ℕ
opened_sockets [] = []
opened_sockets (opens fd ∷ calls) = fd ∷ opened_sockets calls
opened_sockets (closes fd ∷ calls) = opened_sockets calls

abbrev pub closed : List SocketCall → List ℕ
closed [] = []
closed (opens fd ∷ calls) = closed calls
closed (closes fd ∷ calls) = fd ∷ closed calls

-- The program gets a socket, its host is an address, and the server answers at the port, of which 16 bits
-- count.
abbrev pub can_connect : Network → List Bytes → Bool
can_connect n arguments =
    elim n.socket [ none ↦ false | some _ ↦ true ]
    && n.is_address (host_of arguments)
    && n.connects (host_of arguments) (uint16 (port_of n arguments))

-- How a run ends: with a session that was gated by the login, or without one, the files as before.
pub data Ran (n : Network) (arguments : List Bytes) (d : Disk) : Run → Type 0 where
  connected :
      {calls : List SocketCall} {e : Disk} (client : ClientState)
      → can_connect n arguments ≡ true
      → Gated client
      → opened_sockets calls ≡ closed calls
      → Ran n arguments d (record { calls = calls; status = 0; disk = e; session = some client })
  unconnected :
      {calls : List SocketCall}
      → can_connect n arguments ≡ false
      → opened_sockets calls ≡ closed calls
      → Ran n arguments d (record { calls = calls; status = 1; disk = d; session = none })

module _ (n : Network) (arguments : List Bytes) (d : Disk) (inputs : List (Outcomes × Bytes))
    (b : Buffers) where
  abbrev host : Bytes
  host = host_of arguments

  abbrev answers : Bool
  answers = n.connects host (uint16 (port_of n arguments))

  Ran-from :
      (socket : Option ℕ)
      → can_connect n arguments
        ≡ (elim socket [ none ↦ false | some _ ↦ true ] && n.is_address host && answers)
      → Ran n arguments d
          (run_session n d inputs b (connect_from n host (port_of n arguments) socket))
  Ran-from none can = unconnected can refl
  Ran-from (some fd) can = elim (Bool-cases (n.is_address host)) [
    | inr unread ↦ rw unread (unconnected (can ∙ rw unread refl) refl)
    | inl address ↦ elim (Bool-cases answers) [
      | inr refused ↦ rw (address, refused) (unconnected (can ∙ rw (address, refused) refl) refl)
      | inl accepted ↦
          rw (address, accepted)
            (connected _ (can ∙ rw (address, accepted) refl)
              (interactive_mode-Gated inputs _ b (λ out. tt)) refl)
    ]
  ]

  -- Whatever the network does and whatever is typed: every socket that the program opened is closed
  -- once; the exit status is 0 just where the connection was made; what was sent without a
  -- login began with SIGNUP or LOGIN; and with no connection no file changes.
  pub main-Ran : Ran n arguments d (main n arguments d inputs b)
  unfolding main connect_to_server
  main-Ran = Ran-from n.socket refl
