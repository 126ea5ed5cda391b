-- ===== src/ClientProgram/Connection/Gate.antt =====
-- What src/client_program.c sends before it is logged in, and when it is.
use os_lab.Prelude.{
  ℕ, ◌≡◌, Bool, true, false, ◌||◌, Option, none, some, Bytes, codes, All, arith, inl, inr,
  Bool-cases,
}
use os_lab.Client.Command.{starts_with}
use os_lab.ClientProgram.Commands.{signup, login, delete, list, command}
use os_lab.ClientProgram.Connection.{
  ClientState, may_send, send_command, receive_response, is_ok, receive_if_sent, exchange, logged,
  judged, sign_up, log_in, delete_file, list_files,
}

-- `SIGNUP` and `LOGIN` are for those who are not logged in.
abbrev pub opens_session : Bytes → Bool
opens_session text = starts_with text (codes "SIGNUP") || starts_with text (codes "LOGIN")

-- A client that is not logged in has sent no other commands.
abbrev pub Gated : ClientState → Type 0
Gated client = client.logged_in ≡ false → All (λ s. opens_session s.command ≡ true) client.sent

pub send_command-Gated :
    (accepted : ℕ) (client : ClientState) (text : Bytes)
    → Gated client
    → Gated (send_command accepted client text).0
unfolding send_command
send_command-Gated accepted client text gated = elim (Bool-cases (may_send client text)) [
  | inl goes ↦ rw goes (λ out. (ground arith, gated out))
  | inr stays ↦ rw stays gated
]

receive_if_sent-Gated : (r : ClientState × Bool) → Gated r.0 → Gated (receive_if_sent r).0
unfolding receive_response
receive_if_sent-Gated (client, false) gated = gated
receive_if_sent-Gated (client, true) gated = gated

pub exchange-Gated :
    (accepted : ℕ) (client : ClientState) (text : Bytes)
    → Gated client
    → Gated (exchange accepted client text).0
unfolding exchange
exchange-Gated accepted client text gated =
    receive_if_sent-Gated (send_command accepted client text)
      (send_command-Gated accepted client text gated)

logged-Gated :
    (username : Bytes) (r : ClientState × Option Bytes) → Gated r.0 → Gated (logged username r).0
logged-Gated username (client, none) gated = gated
logged-Gated username (client, some response) gated = elim (Bool-cases (is_ok response)) [
  | inl fine ↦ rw fine (λ out. ground arith)
  | inr bad ↦ rw bad gated
]

pub judged-Gated : (r : ClientState × Option Bytes) → Gated r.0 → Gated (judged r).0
judged-Gated (client, none) gated = gated
judged-Gated (client, some response) gated = gated

module _ (accepted : ℕ) (client : ClientState) (gated : Gated client) where
  pub sign_up-Gated :
      (u p : Bytes) (priority : Option Bytes) → Gated (sign_up accepted client u p priority).0
  unfolding sign_up
  sign_up-Gated u p priority =
      let text = command (signup u p priority) in
      logged-Gated u (exchange accepted client text) (exchange-Gated accepted client text gated)

  pub log_in-Gated : (u p : Bytes) → Gated (log_in accepted client u p).0
  unfolding log_in
  log_in-Gated u p =
      let text = command (login u p) in
      logged-Gated u (exchange accepted client text) (exchange-Gated accepted client text gated)

  pub delete_file-Gated : (filename : Bytes) → Gated (delete_file accepted client filename).0
  unfolding delete_file
  delete_file-Gated filename =
      let text = command (delete client.username filename) in
      judged-Gated (exchange accepted client text) (exchange-Gated accepted client text gated)

  pub list_files-Gated : Gated (list_files accepted client).0
  unfolding list_files
  list_files-Gated =
      let text = command (list client.username) in
      judged-Gated (exchange accepted client text) (exchange-Gated accepted client text gated)
