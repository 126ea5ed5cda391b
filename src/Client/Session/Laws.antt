-- ===== src/Client/Session/Laws.antt =====
-- How the handling of a connection by client_thread_main of src/client.c ends.
use os_lab.Prelude.{
  ℕ, ◌<◌, ◌≡◌, refl, ap, ◌∙◌, Bool, true, false, List, [], ◌∷◌, Option, none, some, Bytes, ℤ,
  length, length-append, All, arith, inl, inr, ◌⊎◌, Bool-cases,
}
use os_lab.Task.{Task, ClientInfo}
use os_lab.Queue.{Queue}
use os_lab.Responses.{Response}
use os_lab.Client.Line.{Read, counted, recv_line, c_string}
use os_lab.Client.Line.Laws.{Ending, newline, full, closed, recv_line-Received}
use os_lab.Client.Command.{Parsed, pushes, quits, skips, parse_command}
use os_lab.Client.Wait.Laws.{ReachesTimeout, answer-Told}
use os_lab.Client.Session.{
  Around, Next, continues, leaves, Turn, await, turn, handle_line, Served, and_then, is_line, serve,
}

-- A read that is not empty takes something from the stream.
Ending-shorter :
    (room : ℕ) (stream : Bytes) (r : Read)
    → Ending room stream r
    → is_line (counted r.received r.ended) ≡ true
    → length r.rest < length stream
Ending-shorter room stream r ending h = elim ending [
  | newline e same short ↦ omega (arith, ap length same, length-append r.received (b'\n' ∷ r.rest))
  | full e same long ↦
      omega (arith, ap length same, length-append r.received r.rest, nonempty r.received r.ended h)
  | closed e same nothing short ↦
      omega (arith, ap length same, ap length nothing, nonempty r.received r.ended h)
]
  where
    nonempty :
        (received : Bytes) (ended : Bool)
        → is_line (counted received ended) ≡ true
        → 0 < length received
    nonempty [] true h = ground arith
    nonempty [] false h = ground arith
    nonempty (b ∷ received) ended h = omega arith

module _ (cmp : Response → Response → ℤ) where
  Moves : Next → Type 0
  Moves n = (n ≡ continues) ⊎ (n ≡ leaves)

  await-Moves :
      (a : Around) (t : Task) (q : Option (Queue Response))
      → ReachesTimeout a.wakes
      → Moves (await cmp a t q).next
  unfolding Moves
  await-Moves a t none h = inr refl
  await-Moves a t (some q) h =
      let (result, is, _, _, _, _) = answer-Told cmp a.allocates_reply a.wakes q h in
      rw is (inl refl)

  turn-Moves : (a : Around) (p : Parsed) → ReachesTimeout a.wakes → Moves (turn cmp a p).next
  unfolding Moves
  turn-Moves a skips h = inl refl
  turn-Moves a quits h = inr refl
  turn-Moves a (pushes t) h = await-Moves a t a.responses h

  and_then-ended :
      (t : Turn) (more : Served cmp)
      → Moves t.next
      → more.ended ≡ true
      → (and_then cmp t more).ended ≡ true
  unfolding Moves
  and_then-ended t more (inl goes) h = rw goes h
  and_then-ended t more (inr done) h = rw done refl

  -- The handling of a connection, with a line buffer of 512 bytes, ends once its peer sends no
  -- more, so that the socket is closed and the client deregistered, if every wait comes to its
  -- timeout at the latest: every line takes a byte at least from the stream. One turn for each
  -- byte, and one more, is always enough.
  pub serve-ended :
      (arounds : List Around) (client : ClientInfo) (buf stream : Bytes)
      → length buf ≡ 512
      → length stream < length arounds
      → All (λ a. ReachesTimeout a.wakes) arounds
      → (serve cmp arounds client buf stream).ended ≡ true
  unfolding serve handle_line
  serve-ended [] client buf stream size short timed = absurd (omega arith)
  serve-ended (a ∷ arounds) client buf stream size short (now, later) =
      let (line, r, rest) = recv_line 512 buf stream in
      let received = recv_line-Received 512 buf stream (omega arith) size in
      elim (Bool-cases (is_line r)) [
        | inr stops ↦ rw stops refl
        | inl goes ↦
            let shorter =
              Ending-shorter 511 stream received.read received.ending
                (rw received.returned at goes) in
            let left = ap length received.left in
            let more =
              serve-ended arounds client line rest (received.same_length ∙ size) (omega arith)
                later in
            let moves = turn-Moves a (parse_command a.allocated a.now client (c_string line)) now in
            rw goes (
              and_then-ended (handle_line cmp a client (c_string line))
                (serve cmp arounds client line rest) moves more)
      ]
