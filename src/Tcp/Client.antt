-- ===== src/Tcp/Client.antt =====
-- packages/microservices/src/client/tcp.client.ts: a client and its requests. A request is known
-- by its number; its timer and its observer have the same one. Observers do not call the client.
pub mod Accounts
pub mod Settled
use elysia_nest.Base.{
  ℕ, ◌≡◌, ◌+◌, Bool, true, false, ◌&&◌, ◌||◌, Option, none, some, List, [], ◌∷◌, ◌++◌, map, Text,
  text_eq, nat_eq, if◌then◌else◌, ◌==◌, Map, values, get, put, delete,
}
use elysia_nest.Tcp.Wire.{
  Value, text, other, Frame, Parsed, null_value, fields, Wire, truthy, line_of,
}
use elysia_nest.Tcp.Frames.{Stream, new_stream, receive}

-- What the observer of a request is told.
pub data Settlement (J : Type 0) : Type 0 where
  -- `next` and then `complete`
  replied : Option (Value J) → Settlement J
  -- `error`, with the text of the response
  failed : Option (Value J) → Settlement J
  timed_out : Settlement J
  not_connected : Settlement J

pub record Client (J D : Type 0) : Type 0 where
  pub has_socket : Bool
  pub is_connected : Bool
  pub stream : Stream D
  -- The request that waits for a reply to an id.
  pub pending_requests : Map Text ℕ
  -- The timers that run, each with the id that its callback deletes.
  pub timers : Map ℕ Text
  pub settled : List (ℕ × Settlement J)
  pub written : List Text
  -- How many requests were sent.
  pub sent : ℕ

-- `b"TCP connection closed"`
abbrev pub connection_closed : Text
connection_closed =
    84 ∷ 67 ∷ 80 ∷ 32 ∷ 99 ∷ 111 ∷ 110 ∷ 110 ∷ 101 ∷ 99 ∷ 116 ∷ 105 ∷ 111 ∷ 110 ∷ 32 ∷ 99 ∷ 108
    ∷ 111 ∷ 115 ∷ 101 ∷ 100 ∷ []

-- `b"TCP client closed"`
abbrev pub client_closed : Text
client_closed =
    84 ∷ 67 ∷ 80 ∷ 32 ∷ 99 ∷ 108 ∷ 105 ∷ 101 ∷ 110 ∷ 116 ∷ 32 ∷ 99 ∷ 108 ∷ 111 ∷ 115 ∷ 101 ∷ 100
    ∷ []

-- What can happen to a client.
pub data ClientEvent (J : Type 0) : Type 0 where
  connecting : ClientEvent J
  connected : ClientEvent J
  data_in : List ℕ → ClientEvent J
  socket_error : Text → ClientEvent J
  socket_closed : ClientEvent J
  -- The id is the one that `randomUUID` gives.
  sending : Text → Text → Option (Value J) → ClientEvent J
  timer_fires : ℕ → ClientEvent J
  closing : ClientEvent J

module _ {J D : Type 0} (w : Wire J D) where
  abbrev pub new_client : Client J D
  new_client = record {
    has_socket = false;
    is_connected = false;
    stream = new_stream w;
    pending_requests = [];
    timers = [];
    settled = [];
    written = [];
    sent = 0;
  }

  abbrev pub outcome_of : Frame J → Settlement J
  outcome_of response =
      if truthy w response.error then failed response.error else replied response.payload

  -- The callback that is stored for a request.
  unfoldable pub settle_request : Frame J → ℕ → Client J D → Client J D
  settle_request response n c = record c {
    timers = delete c.timers n;
    settled = c.settled ++ (n, outcome_of response) ∷ [];
  }

  unfoldable pub settle_all : Frame J → List ℕ → Client J D → Client J D
  settle_all response [] c = c
  settle_all response (n ∷ ns) c = settle_all response ns (settle_request response n c)

  unfoldable pub reject_pending : Text → Client J D → Client J D
  reject_pending message c =
      let reason = if message == [] then connection_closed else message in
      settle_all
        (record {
          id = some (text []);
          pattern_ = none;
          payload = none;
          error = some (text reason);
        })
        (values c.pending_requests) (record c { pending_requests = [] })

  abbrev pub settle_reply : Frame J → Text → Option ℕ → Client J D → Client J D
  settle_reply f id none c = c
  settle_reply f id (some n) c = record (settle_request f n c) {
    pending_requests = delete (settle_request f n c).pending_requests id;
  }

  -- The id is looked up as it is, so that only a string can be found.
  abbrev pub handle_response : Frame J → Option (Value J) → Client J D → Client J D
  handle_response f none c = c
  handle_response f (some (other j)) c = c
  handle_response f (some (text id)) c =
      if id == [] then c else settle_reply f id (get c.pending_requests id) c

  abbrev pub handle_parsed : Option (Parsed J) → Client J D → Client J D
  handle_parsed none c = c
  -- The fields of null are read inside the `try`.
  handle_parsed (some null_value) c = c
  handle_parsed (some (fields f)) c = handle_response f f.id c

  unfoldable pub handle_line : Client J D → Text → Client J D
  handle_line c line = handle_parsed (w.parse line) c

  unfoldable pub handle_lines : Client J D → List Text → Client J D
  handle_lines c [] = c
  handle_lines c (line ∷ lines) = handle_lines (handle_line c line) lines

  -- Where the buffer overflows there are no lines; the socket is destroyed, and closes later.
  unfoldable pub handle_data : Client J D → List ℕ → Client J D
  handle_data c chunk =
      let r = receive w c.stream chunk in handle_lines (record c { stream = r.stream }) r.lines

  unfoldable pub send : Text → Text → Option (Value J) → Client J D → Client J D
  send id pattern_ payload c =
      if c.is_connected && c.has_socket
      then record c {
        timers = put c.timers c.sent id;
        pending_requests = put c.pending_requests id c.sent;
        written =
            c.written
            ++ line_of w (record {
              id = some (text id);
              pattern_ = some (text pattern_);
              payload = payload;
              error = none;
            })
              ∷ [];
        sent = c.sent + 1;
      }
      else record c { settled = c.settled ++ (c.sent, not_connected) ∷ []; sent = c.sent + 1 }

  abbrev pub fire : ℕ → Option Text → Client J D → Client J D
  fire n none c = c
  fire n (some id) c = record c {
    pending_requests = delete c.pending_requests id;
    timers = delete c.timers n;
    settled = c.settled ++ (n, timed_out) ∷ [];
  }

  unfoldable pub close : Client J D → Client J D
  close c = record (reject_pending client_closed c) { is_connected = false; stream = new_stream w }

  unfoldable pub client_step : ClientEvent J → Client J D → Client J D
  client_step connecting c = record c { has_socket = true }
  client_step connected c = record c { is_connected = true }
  client_step (data_in chunk) c = handle_data c chunk
  client_step (socket_error message) c = if c.is_connected then reject_pending message c else c
  client_step socket_closed c = reject_pending connection_closed (record c { is_connected = false })
  client_step (sending id pattern_ payload) c = send id pattern_ payload c
  client_step (timer_fires n) c = fire n (get c.timers n) c
  client_step closing c = close c

  -- `randomUUID` gives no id that a request waits for.
  abbrev pub IsFresh : ClientEvent J → Client J D → Type 0
  IsFresh (sending id pattern_ payload) c = get c.pending_requests id ≡ none
  IsFresh _ c = Unit

  pub data Reachable : Client J D → Type 0 where
    starts : Reachable new_client
    steps :
        {c : Client J D} (e : ClientEvent J)
        → Reachable c
        → IsFresh e c
        → Reachable (client_step e c)
