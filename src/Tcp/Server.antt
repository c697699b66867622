-- ===== src/Tcp/Server.antt =====
-- packages/microservices/src/transports/tcp.server.ts with the handler maps of transports/server.ts.
-- Sockets, handlers and the server's own requests are known by numbers. What user code does, the
-- sockets do, and the answers of handlers are later events.
pub mod Requests
pub mod Closed
use elysia_nest.Base.{
  ℕ, ◌≡◌, ◌+◌, Bool, true, false, ◌&&◌, ◌||◌, not, Option, none, some, List, [], ◌∷◌, ◌++◌, map,
  Text, text_eq, nat_eq, if◌then◌else◌, ◌==◌, Map, values, get, put, delete, add, filter,
}
use elysia_nest.Tcp.Wire.{
  Value, text, other, Frame, Parsed, null_value, fields, Wire, truthy, line_of,
}
use elysia_nest.Tcp.Frames.{Stream, new_stream, receive}
use elysia_nest.Tcp.Client.{Settlement, replied, timed_out, not_connected}

-- The calls that the server makes, in order.
pub data Effect (J : Type 0) : Type 0 where
  -- `socket.write`
  written : ℕ → Text → Effect J
  -- `socket.destroy`
  destroyed : ℕ → Effect J
  -- A handler for messages, with the data, and the socket and id of its answer.
  asked : ℕ → Option (Value J) → ℕ → Option (Value J) → Effect J
  -- A handler for events, with the data.
  notified : ℕ → Option (Value J) → Effect J
  -- A promise rejects that nobody awaits.
  unhandled_rejection : Effect J

-- How the promise of a handler settles, with the text of the error.
pub data Answer (J : Type 0) : Type 0 where
  returned : Option (Value J) → Answer J
  threw : Text → Answer J

pub record TcpServer (J D : Type 0) : Type 0 where
  pub is_listening : Bool
  pub sockets : List ℕ
  pub streams : Map ℕ (Stream D)
  pub message_handlers : Map Text ℕ
  pub event_handlers : Map Text ℕ
  pub pending_replies : Map Text ℕ
  pub timers : Map ℕ Text
  pub settled : List (ℕ × Settlement J)
  pub sent : ℕ
  pub effects : List (Effect J)

-- A lookup by a value of JSON: only a string can be found.
abbrev pub get_value : {J : Type 0} → Map Text ℕ → Option (Value J) → Option ℕ
get_value m none = none
get_value m (some (text t)) = get m t
get_value m (some (other j)) = none

module _ {J D : Type 0} (w : Wire J D) where
  abbrev pub new_server : TcpServer J D
  new_server = record {
    is_listening = false;
    sockets = [];
    streams = [];
    message_handlers = [];
    event_handlers = [];
    pending_replies = [];
    timers = [];
    settled = [];
    sent = 0;
    effects = [];
  }

  abbrev pub perform : Effect J → TcpServer J D → TcpServer J D
  perform e s = record s { effects = s.effects ++ e ∷ [] }

  unfoldable pub add_message_handler : Text → ℕ → TcpServer J D → TcpServer J D
  add_message_handler pattern_ h s = record s {
    message_handlers = put s.message_handlers pattern_ h;
  }

  unfoldable pub add_event_handler : Text → ℕ → TcpServer J D → TcpServer J D
  add_event_handler pattern_ h s = record s { event_handlers = put s.event_handlers pattern_ h }

  unfoldable pub handle_connection : ℕ → TcpServer J D → TcpServer J D
  handle_connection socket s = record s {
    sockets = add s.sockets socket;
    streams = put s.streams socket (new_stream w);
  }

  -- The handlers of "close" and "error" of a socket.
  unfoldable pub drop_socket : ℕ → TcpServer J D → TcpServer J D
  drop_socket socket s = record s { sockets = filter (λ x. not (x == socket)) s.sockets }

  abbrev pub delete_value : Map Text ℕ → Option (Value J) → Map Text ℕ
  delete_value m (some (text t)) = delete m t
  delete_value m _ = m

  -- The reply to the request n: only its data is passed on.
  abbrev pub resolve_reply : ℕ → Frame J → TcpServer J D → TcpServer J D
  resolve_reply n f s = record s {
    timers = delete s.timers n;
    settled = s.settled ++ (n, replied f.payload) ∷ [];
    pending_replies = delete_value s.pending_replies f.id;
  }

  abbrev pub dispatch_event : Option ℕ → Frame J → TcpServer J D → TcpServer J D
  dispatch_event none f s = s
  dispatch_event (some h) f s = perform (notified h f.payload) s

  abbrev pub dispatch : Option ℕ → ℕ → Frame J → TcpServer J D → TcpServer J D
  dispatch (some h) socket f s = perform (asked h f.payload socket f.id) s
  dispatch none socket f s = dispatch_event (get_value s.event_handlers f.pattern_) f s

  abbrev pub handle_frame : Option ℕ → ℕ → Frame J → TcpServer J D → TcpServer J D
  handle_frame (some n) socket f s = resolve_reply n f s
  handle_frame none socket f s = dispatch (get_value s.message_handlers f.pattern_) socket f s

  abbrev pub handle_parsed : ℕ → Option (Parsed J) → TcpServer J D → TcpServer J D
  handle_parsed socket none s = s
  -- The fields of null are read outside the `try`.
  handle_parsed socket (some null_value) s = perform unhandled_rejection s
  handle_parsed socket (some (fields f)) s =
      if not (truthy w f.id) || not (truthy w f.pattern_)
      then s
      else handle_frame (get_value s.pending_replies f.id) socket f s

  unfoldable pub handle_message_line : TcpServer J D → Text → ℕ → TcpServer J D
  handle_message_line s line socket = handle_parsed socket (w.parse line) s

  -- The promise of a handler has settled.
  unfoldable pub answer_request : ℕ → Option (Value J) → Answer J → TcpServer J D → TcpServer J D
  answer_request socket id (returned v) s =
      perform
        (written socket
          (line_of w (record { id = id; pattern_ = none; payload = v; error = none })))
        s
  answer_request socket id (threw message) s =
      perform
        (written socket (
          line_of w
            (record { id = id; pattern_ = none; payload = none; error = some (text message) })))
        s

  unfoldable pub handle_lines : ℕ → TcpServer J D → List Text → TcpServer J D
  handle_lines socket s [] = s
  handle_lines socket s (line ∷ lines) =
      handle_lines socket (handle_message_line s line socket) lines

  abbrev pub handle_chunk : ℕ → List ℕ → Option (Stream D) → TcpServer J D → TcpServer J D
  handle_chunk socket chunk none s = s
  handle_chunk socket chunk (some stream) s =
      let r = receive w stream chunk in
      let s' = record s { streams = put s.streams socket r.stream } in
      if r.overflow then perform (destroyed socket) s' else handle_lines socket s' r.lines

  -- The handler of "data" of a socket.
  unfoldable pub handle_data : ℕ → List ℕ → TcpServer J D → TcpServer J D
  handle_data socket chunk s = handle_chunk socket chunk (get s.streams socket) s

  abbrev pub message_line : Text → Text → Option (Value J) → Text
  message_line id pattern_ payload = line_of w (record {
    id = some (text id);
    pattern_ = some (text pattern_);
    payload = payload;
    error = none;
  })

  abbrev pub send_to : List ℕ → Text → Text → Option (Value J) → TcpServer J D → TcpServer J D
  send_to [] id pattern_ payload s = record s {
    settled = s.settled ++ (s.sent, not_connected) ∷ [];
    sent = s.sent + 1;
  }
  send_to (socket ∷ _) id pattern_ payload s =
      perform (written socket (message_line id pattern_ payload)) (record s {
        timers = put s.timers s.sent id;
        pending_replies = put s.pending_replies id s.sent;
        sent = s.sent + 1;
      })

  -- The id is the one that `randomUUID` gives.
  unfoldable pub send_message : Text → Text → Option (Value J) → TcpServer J D → TcpServer J D
  send_message id pattern_ payload s = send_to s.sockets id pattern_ payload s

  unfoldable pub emit_event : Text → Text → Option (Value J) → TcpServer J D → TcpServer J D
  emit_event id pattern_ payload s = record s {
    effects =
        s.effects ++ map (λ socket. written socket (message_line id pattern_ payload)) s.sockets;
  }

  abbrev pub fire_timer : ℕ → Option Text → TcpServer J D → TcpServer J D
  fire_timer n none s = s
  fire_timer n (some id) s = record s {
    pending_replies = delete s.pending_replies id;
    timers = delete s.timers n;
    settled = s.settled ++ (n, timed_out) ∷ [];
  }

  -- The handlers are removed by `cleanup`.
  unfoldable pub close : TcpServer J D → TcpServer J D
  close s = record s {
    is_listening = false;
    sockets = [];
    pending_replies = [];
    message_handlers = [];
    event_handlers = [];
    effects = s.effects ++ map destroyed s.sockets;
  }
