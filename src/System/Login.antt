-- ===== src/System/Login.antt =====
-- A login from the client program through the server and back: src/client_program.c, src/client.c,
-- src/worker.c and src/user_db.c.
use os_lab.Prelude.{
  ℕ, ◌<◌, ◌≡◌, refl, sym, ap, ◌∙◌, Bool, true, false, ◌++◌, some, Result, ok, err, Bytes, ℤ, length,
  length-take, arith, if◌then◌else◌,
}
use os_lab.Task.{Task}
use os_lab.Sql.{Sql}
use os_lab.Users.Accounts.{account}
use os_lab.Users.Login.{CanLogin, password_in}
use os_lab.Responses.{Response, resp_ok, resp_err, response, deliver, send_response}
use os_lab.Worker.{Outside, World, reply_result, login_result, handle_login, reply}
use os_lab.Worker.Effects.{login-password}
use os_lab.Scan.Words.{IsWord}
use os_lab.Client.Line.{recv_line, c_string}
use os_lab.Client.Line.Laws.{Without}
use os_lab.Client.Command.{parse, pushes}
use os_lab.ClientProgram.Commands.{login, text, command}
use os_lab.ClientProgram.Commands.RoundTrip.{meant, parse-command}
use os_lab.ClientProgram.Connection.{ClientState, log_in}
use os_lab.ClientProgram.Connection.Replies.{Answers, is_resp_ok, log_in-reply}

-- The response to a result, for a client.
abbrev pub response_to : ℕ → Result Bytes → Response
response_to id (ok message) = response id resp_ok (some message)
response_to id (err message) = response id resp_err (some message)

message-length : (id : ℕ) (r : Result Bytes) → length (response_to id r).message < 512
message-length id (ok message) = omega (arith, length-take 511 message)
message-length id (err message) = omega (arith, length-take 511 message)

status-ok :
    (id : ℕ) (r : Result Bytes)
    → is_resp_ok (response_to id r).status ≡ true
    → (m : Bytes) × (r ≡ ok m)
status-ok id (ok message) h = (message, refl)
status-ok id (err message) h = absurd (ground arith)

module _ (sql : Sql) (cmp : Response → Response → ℤ) where
  result-delivered :
      (o : Outside) (w : World sql cmp) (t : Task) (r : Result Bytes)
      → o.allocates_response ≡ true
      → (reply_result sql cmp o w t r).resp_queues.items
        ≡ deliver cmp o.grows t.client.client_id
            (response_to t.client.client_id r)
            w.resp_queues.items
  unfolding reply send_response
  result-delivered o w t (ok message) h = rw h refl
  result-delivered o w t (err message) h = rw h refl

  -- `t` is the task that the client thread created for the line, and `client` the program's state.
  module _ (o : Outside) (w : World sql cmp) (t : Task) (client : ClientState) (u p : Bytes) where
    abbrev asked : Task
    asked = meant (login u p) t

    abbrev its_response : Response
    its_response = response_to asked.client.client_id (login_result sql cmp o w asked)

    -- What a login comes to, from the command to the reply.
    pub record LoggedIn (buf rest : Bytes) : Type 0 where
      pub task :
          parse t (c_string (recv_line 512 buf (command (login u p) ++ rest)).0) ≡ pushes asked
      pub answer :
          (handle_login sql cmp o w asked).resp_queues.items
          ≡ deliver cmp o.grows asked.client.client_id its_response w.resp_queues.items
      pub password : password_in (account sql w.user_store u) ≡ some p

    -- If the program takes its user for logged in, on the reply, in one read, to the response that
    -- a worker gives to the command of this login, then the user gave the password of the account.
    -- Name and password must be words without NULs that the server's directives take whole, the
    -- command must fit in its buffer, there must be memory for the response, and a database must
    -- be able to prepare the statement of the login.
    pub log_in-password :
        (buf rest : Bytes) (a : Answers client its_response)
        → IsWord 63 u × IsWord 63 p
        → Without 0 u
        → Without 0 p
        → length (text (login u p)) < 256
        → o.allocates_response ≡ true
        → CanLogin sql w.user_store.storage
        → (log_in (length (command (login u p))) client u p).1 ≡ true
        → LoggedIn buf rest
    unfolding handle_login
    log_in-password buf rest a plain clear_u clear_p fits allocated can logged =
        let result = login_result sql cmp o w asked in
        let id = asked.client.client_id in
        let both =
          ap (λ r. r.1) (log_in-reply client u p its_response a (message-length id result)) in
        let fine : is_resp_ok its_response.status ≡ true =
          branch (is_resp_ok its_response.status) _ _ (sym both ∙ logged) in
        let (m, is_ok) = status-ok id result fine in
        record {
          task = (parse-command (login u p) t buf rest plain (clear_u, (clear_p, tt)) fits).0;
          answer = result-delivered o w asked result allocated;
          password = login-password sql cmp o w asked m can is_ok;
        }
      where
        branch :
            (b : Bool) (x y : ClientState)
            → (if◌then◌else◌ {A = ClientState × Bool} b (x, true) (y, false)).1 ≡ true
            → b ≡ true
        branch true x y h = refl
        branch false x y h = h
