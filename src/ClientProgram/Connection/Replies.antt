-- ===== src/ClientProgram/Connection/Replies.antt =====
-- How src/client_program.c reads the replies of src/client.c.
use os_lab.Prelude.{
  ℕ, ◌+◌, ◌≤◌, ◌<◌, ◌≡◌, refl, ap, ◌∙◌, Bool, true, false, List, ◌∷◌, ◌++◌, some, Bytes, codes,
  length, length-append, drop, take-append, drop-append, arith, ◌==◌, strncpy, if◌then◌else◌,
}
use os_lab.Responses.{Response, ResponseStatus, resp_ok, resp_err}
use os_lab.Client.Wait.{status_text, reply_text}
use os_lab.Client.Wait.Laws.{reply_text_whole}
use os_lab.Client.Command.{starts_with}
use os_lab.ClientProgram.Commands.{login, text, command}
use os_lab.ClientProgram.Connection.{
  ClientState, may_send, send_command, some_bytes, receive_response, is_ok, exchange, logged,
  read_bytes, after_read, log_in, read_size, later,
}

abbrev pub is_resp_ok : ResponseStatus → Bool
is_resp_ok resp_ok = true
is_resp_ok resp_err = false

-- The next `read` gets exactly the reply.
pub record Answers (client : ClientState) (r : Response) : Type 0 where
  pub rest : Bytes
  pub sizes : List ℕ
  pub stream : client.stream ≡ reply_text r ++ rest
  pub in_one : client.sizes ≡ length (reply_text r) ∷ sizes

length-reply_text : (r : Response) → length r.message < 512 → length (reply_text r) < 1023
length-reply_text r fits = rw (reply_text_whole r fits) (short r.status)
  where
    rest_length : length (codes " " ++ r.message ++ codes "\n") ≡ length r.message + 2
    rest_length = omega (arith, length-append r.message (codes "\n"))

    short :
        (st : ResponseStatus)
        → length (status_text st ++ codes " " ++ r.message ++ codes "\n") < 1023
    short resp_ok = omega (arith, rest_length)
    short resp_err = omega (arith, rest_length)

pub reply_is_ok :
    (r : Response) → length r.message < 512 → is_ok (reply_text r) ≡ is_resp_ok r.status
unfolding starts_with
reply_is_ok r fits = rw (reply_text_whole r fits) (by_status r.status)
  where
    by_status :
        (st : ResponseStatus)
        → is_ok (status_text st ++ codes " " ++ r.message ++ codes "\n") ≡ is_resp_ok st
    by_status resp_ok = refl
    by_status resp_err = refl

reply_some :
    (r : Response) → length r.message < 512 → some_bytes (reply_text r) ≡ some (reply_text r)
reply_some r fits = rw (reply_text_whole r fits) (by_status r.status)
  where
    by_status :
        (st : ResponseStatus)
        → some_bytes (status_text st ++ codes " " ++ r.message ++ codes "\n")
          ≡ some (status_text st ++ codes " " ++ r.message ++ codes "\n")
    by_status resp_ok = refl
    by_status resp_err = refl

-- A `read` that gets one block of the stream.
pub read_block :
    (limit : ℕ) (client : ClientState) (block rest : Bytes) (sizes : List ℕ)
    → length block ≤ limit
    → client.stream ≡ block ++ rest
    → client.sizes ≡ length block ∷ sizes
    → (read_bytes limit client ≡ block)
      × (after_read limit client ≡ record client { stream = rest; sizes = sizes })
read_block limit client block rest sizes fits stream in_one =
    let size : read_size limit client.sizes ≡ length block = rw in_one (ground arith) in
    let others : later client.sizes ≡ sizes = rw in_one refl in
    let left : drop (read_size limit client.sizes) client.stream ≡ rest =
      rw (size, stream) (drop-append (length block) block rest refl) in
    (rw (size, stream) (take-append (length block) block rest refl), rw (left, others) refl)

pub received_reply :
    (client : ClientState) (r : Response) (a : Answers client r)
    → length r.message < 512
    → receive_response client 1024
      ≡ (record client { stream = a.rest; sizes = a.sizes }, some (reply_text r))
unfolding receive_response
received_reply client r a fits =
    let short = length-reply_text r fits in
    let (read, left) =
      read_block 1023 client (reply_text r) a.rest a.sizes (omega arith) a.stream a.in_one in
    rw (read, left, reply_some r fits) refl

-- The state behind a command that was sent whole and its reply.
abbrev pub replied : (client : ClientState) (r : Response) → Bytes → Answers client r → ClientState
replied client r text a = record client {
  sent = record { command = text; accepted = length text } ∷ client.sent;
  stream = a.rest;
  sizes = a.sizes;
}

exchange-reply :
    (client : ClientState) (text : Bytes) (r : Response) (a : Answers client r)
    → length r.message < 512
    → may_send client text ≡ true
    → exchange (length text) client text ≡ (replied client r text a, some (reply_text r))
unfolding exchange send_command
exchange-reply client text r a fits goes =
    let after : ClientState = record client {
      sent = record { command = text; accepted = length text } ∷ client.sent;
    } in
    let same : length text == length text ≡ true = ground arith in
    let moved : Answers after r = record {
      rest = a.rest;
      sizes = a.sizes;
      stream = a.stream;
      in_one = a.in_one;
    } in
    rw (goes, same) (received_reply after r moved fits)

logged-reply :
    (u : Bytes) (client : ClientState) (r : Response)
    → length r.message < 512
    → logged u (client, some (reply_text r)) ≡ (
        if is_resp_ok r.status
        then (record client { username = strncpy 64 u; logged_in = true }, true)
        else (client, false))
logged-reply u client r fits = rw (reply_is_ok r fits) refl

login_may_send : (client : ClientState) (u p : Bytes) → may_send client (command (login u p)) ≡ true
unfolding command starts_with
login_may_send client u p = ground arith

-- A login that is sent whole and whose reply, with a message of less than 512 bytes, comes in one
-- read: exactly if the server's response has the status OK the program is then logged in, under
-- the name that was typed, cut to its buffer; with any other response it stays as it was. Either
-- way the reply, and no more, is taken from the stream.
pub log_in-reply :
    (client : ClientState) (u p : Bytes) (r : Response) (a : Answers client r)
    → length r.message < 512
    → log_in (length (command (login u p))) client u p ≡ (
        if is_resp_ok r.status
        then (
          record (replied client r (command (login u p)) a) {
            username = strncpy 64 u;
            logged_in = true;
          },
          true,
        )
        else (replied client r (command (login u p)) a, false))
unfolding log_in
log_in-reply client u p r a fits =
    let text = command (login u p) in
    ap (logged u) (exchange-reply client text r a fits (login_may_send client u p))
    ∙ logged-reply u (replied client r text a) r fits
