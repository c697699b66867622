-- ===== src/Tcp/Server/Requests.antt =====
-- Requests between client/tcp.client.ts and transports/tcp.server.ts of packages/microservices/src.
use elysia_nest.Base.{
  ℕ, ◌≡◌, ◌≢◌, refl, ap, ◌∙◌, true, Option, none, some, [], ◌∷◌, ◌++◌, Text, text_eq, nat_eq,
  if◌then◌else◌, ◌==◌, get, put, arith, beq_ne, beq_self, get-put,
}
use elysia_nest.Tcp.Wire.{Value, text, Frame, Wire, WireLaws, line_of}
use elysia_nest.Tcp.Client.{
  Client, Settlement, replied, failed, outcome_of, settle_request, handle_line, send,
}
use elysia_nest.Tcp.Server.{
  TcpServer, written, asked, Answer, returned, threw, perform, handle_message_line, answer_request,
}

module _ {J : Type 0} where
  -- What the observer of a request gets for an answer of the handler. An error whose message is the
  -- empty text is taken for a reply without a value.
  abbrev pub observed : Answer J → Settlement J
  observed (returned v) = replied v
  observed (threw message) = if message == [] then replied none else failed (some (text message))

  abbrev pub response_of : Text → Answer J → Frame J
  response_of id (returned v) = record {
    id = some (text id);
    pattern_ = none;
    payload = v;
    error = none;
  }
  response_of id (threw message) = record {
    id = some (text id);
    pattern_ = none;
    payload = none;
    error = some (text message);
  }

  abbrev pub request_of : Text → Text → Option (Value J) → Frame J
  request_of id pattern_ payload = record {
    id = some (text id);
    pattern_ = some (text pattern_);
    payload = payload;
    error = none;
  }

module _ {J D : Type 0} (w : Wire J D) (laws : WireLaws w) where
  observed_outcome : (id : Text) (a : Answer J) → outcome_of w (response_of id a) ≡ observed a
  observed_outcome id (returned v) = refl
  observed_outcome id (threw message) = ground arith

  answer_writes :
      (socket : ℕ) (id : Text) (a : Answer J) (s : TcpServer J D)
      → (answer_request w socket (some (text id)) a s).effects
        ≡ s.effects ++ written socket (line_of w (response_of id a)) ∷ []
  unfolding answer_request
  answer_writes socket id (returned v) s = refl
  answer_writes socket id (threw message) s = refl

  reply_settles :
      (c : Client J D) (id : Text) (n : ℕ) (a : Answer J)
      → id ≢ []
      → get c.pending_requests id ≡ some n
      → (handle_line w c (w.stringify (response_of id a))).settled
        ≡ c.settled ++ (n, observed a) ∷ []
  unfolding handle_line settle_request
  reply_settles c id n (returned v) given at =
      rw (laws.parse-stringify (response_of id (returned v)), beq_ne id [] given, at) refl
  reply_settles c id n (threw message) given at =
      rw (laws.parse-stringify (response_of id (threw message)), beq_ne id [] given, at)
        (ap (λ o. c.settled ++ (n, o) ∷ []) (observed_outcome id (threw message)))

  request_dispatched :
      (s : TcpServer J D) (id pattern_ : Text) (payload : Option (Value J)) (socket h : ℕ)
      → id ≢ []
      → pattern_ ≢ []
      → get s.pending_replies id ≡ none
      → get s.message_handlers pattern_ ≡ some h
      → handle_message_line w s (w.stringify (request_of id pattern_ payload)) socket
        ≡ perform w (asked h payload socket (some (text id))) s
  unfolding handle_message_line
  request_dispatched s id pattern_ payload socket h given given' free at =
      rw
        (
          laws.parse-stringify (request_of id pattern_ payload),
          beq_ne id [] given,
          beq_ne pattern_ [] given',
          free,
          at,
        )
        refl

  request_sent :
      (c : Client J D) (id pattern_ : Text) (payload : Option (Value J))
      → c.is_connected ≡ true
      → c.has_socket ≡ true
      → ((send w id pattern_ payload c).written
          ≡ c.written ++ line_of w (request_of id pattern_ payload) ∷ [])
        × ((send w id pattern_ payload c).settled ≡ c.settled)
        × ((send w id pattern_ payload c).pending_requests ≡ put c.pending_requests id c.sent)
  unfolding send
  request_sent c id pattern_ payload up joined = rw (up, joined) (refl, refl, refl)

  -- A request and its answer. A connected client sends a request: it writes one line. The server
  -- that gets this line, has a handler for the pattern and awaits no reply to the id, calls this
  -- handler with the request's data, and nothing else. When the handler's promise settles, the
  -- server writes one line to the socket of the request, and the client that gets it tells the
  -- observer of this very request, and no other, the value, or the error if its message is not empty;
  -- an error with an empty message reaches the observer as a reply without a value.
  pub request_round_trip :
      (c : Client J D) (s : TcpServer J D) (id pattern_ : Text) (payload : Option (Value J))
      (socket h : ℕ) (a : Answer J)
      → c.is_connected ≡ true
      → c.has_socket ≡ true
      → id ≢ []
      → pattern_ ≢ []
      → get s.pending_replies id ≡ none
      → get s.message_handlers pattern_ ≡ some h
      → ((send w id pattern_ payload c).written
          ≡ c.written ++ line_of w (request_of id pattern_ payload) ∷ [])
        × (handle_message_line w s (w.stringify (request_of id pattern_ payload)) socket
            ≡ perform w (asked h payload socket (some (text id))) s)
        × ((answer_request w socket (some (text id)) a s).effects
            ≡ s.effects ++ written socket (line_of w (response_of id a)) ∷ [])
        × ((handle_line w (send w id pattern_ payload c) (w.stringify (response_of id a))).settled
            ≡ c.settled ++ (c.sent, observed a) ∷ [])
  request_round_trip c s id pattern_ payload socket h a up joined given given' free at =
      let (line, same, waits) = request_sent c id pattern_ payload up joined in
      let waiting : get (send w id pattern_ payload c).pending_requests id ≡ some c.sent =
        ap (λ m. get m id) waits
        ∙ get-put c.pending_requests id c.sent id
        ∙ ap (λ b. if b then some c.sent else get c.pending_requests id) (beq_self id) in
      (
        line,
        request_dispatched s id pattern_ payload socket h given given' free at,
        answer_writes socket id a s,
        reply_settles (send w id pattern_ payload c) id c.sent a given waiting
            ∙ ap (λ l. l ++ (c.sent, observed a) ∷ []) same,
      )
