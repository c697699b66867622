-- ===== src/Apollo/Connection.antt =====
-- One WebSocket connection of packages/apollo/src/services/graphql-ws.handler.ts. What is awaited
-- (the hooks, the source streams, execute) settles in later events; values are numbers. The hooks
-- onDisconnect and onClose of handleClose are code of the program: they may throw. The timers of
-- 5 s that callReturnWithTimeout starts are not modelled: that a call stops waiting for `return`
-- is the event that its `return` has settled.
use elysia_nest.Base.{
  ℕ, ◌+◌, zero, suc, Bool, true, false, ◌||◌, not, Option, none, some, List, [], ◌∷◌, ◌++◌, nat_eq,
  ◌==◌, if◌then◌else◌, get, delete, values, filter,
}
use elysia_nest.Apollo.Timeouts.{WsOptions, keep_alive_ms}
use elysia_nest.Apollo.Streams.{Streams, no_streams, start_handle, abort, abort_all}

-- What the server sends, with the id.
pub data ServerMessage : Type 0 where
  connection_ack : ServerMessage
  server_ping : ServerMessage
  server_pong : Option ℕ → ServerMessage
  next_message : ℕ → ℕ → ServerMessage
  complete_message : ℕ → ServerMessage
  error_message : ℕ → ServerMessage

pub data ClientMessage : Type 0 where
  connection_init : ClientMessage
  subscribe_message : ℕ → ClientMessage
  client_complete : ℕ → ClientMessage
  client_ping : Option ℕ → ClientMessage
  client_pong : ClientMessage
  unknown_type : ClientMessage

pub data CloseCode : Type 0 where
  bad_request : CloseCode
  unauthorized : CloseCode
  forbidden : CloseCode
  connection_initialisation_timeout : CloseCode
  subscriber_already_exists : CloseCode
  too_many_initialisation_requests : CloseCode
  keep_alive_timeout_close_code : CloseCode

pub record ConnectionState : Type 0 where
  -- Whether the map `connections` holds the state.
  pub registered : Bool
  pub is_initialized : Bool
  pub closed : Bool
  -- Whether the timer for connection_init runs.
  pub init_timer : Bool
  pub keep_alive_interval : Option ℕ
  -- The intervals that run, and how many were set.
  pub running : List ℕ
  pub set_intervals : ℕ
  pub last_activity_at : ℕ
  pub streams : Streams
  -- The calls that await `onConnect`.
  pub connecting : ℕ
  pub sent : List ServerMessage
  -- The codes with which the server closed the socket.
  pub close_codes : List CloseCode

-- How the part of executeSubscription before the loop ends.
pub data SetupResult : Type 0 where
  setup_threw : SetupResult
  -- The errors of the validation or of `onSubscribe`.
  setup_errors : SetupResult
  setup_result : ℕ → SetupResult
  setup_stream : ℕ → SetupResult

pub data NextResult : Type 0 where
  aborted_first : NextResult
  next_done : NextResult
  next_value : NextResult
  next_threw : NextResult

pub data ExecuteResult : Type 0 where
  execute_threw : ExecuteResult
  executed : ℕ → ExecuteResult
  -- `onNext` threw.
  hook_threw : ℕ → ExecuteResult

abbrev pub open_connection : ℕ → ConnectionState
open_connection now = record {
  registered = true;
  is_initialized = false;
  closed = false;
  init_timer = true;
  keep_alive_interval = none;
  running = [];
  set_intervals = 0;
  last_activity_at = now;
  streams = no_streams;
  connecting = 0;
  sent = [];
  close_codes = [];
}

abbrev pub safe_send : ServerMessage → ConnectionState → ConnectionState
safe_send message s = record s { sent = s.sent ++ message ∷ [] }

abbrev pub close_socket : CloseCode → ConnectionState → ConnectionState
close_socket code s = record s { close_codes = s.close_codes ++ code ∷ [] }

abbrev pub with_streams : (Streams → Streams) → ConnectionState → ConnectionState
with_streams f s = record s { streams = f s.streams }

-- `clearInterval`
abbrev pub clear_interval : Option ℕ → List ℕ → List ℕ
clear_interval none running = running
clear_interval (some i) running = filter (λ j. not (j == i)) running

abbrev pub release_all : Streams → Streams
release_all t = record (abort_all (values t.subscriptions) t) { subscriptions = [] }

unfoldable pub cleanup_connection : ConnectionState → ConnectionState
cleanup_connection s = if s.closed then s else record s {
  closed = true;
  init_timer = false;
  running = clear_interval s.keep_alive_interval s.running;
  keep_alive_interval = none;
  streams = release_all s.streams;
}

-- Whether onDisconnect or onClose throws; the connection then stays in the map.
unfoldable pub handle_close : Bool → ConnectionState → ConnectionState
handle_close threw s =
    if s.registered
    then if threw
      then cleanup_connection s
      else record (cleanup_connection s) { registered = false }
    else s

unfoldable pub dispose : ConnectionState → ConnectionState
dispose s = if s.registered then record (cleanup_connection s) { registered = false } else s

abbrev pub is_some : Option ℕ → Bool
is_some none = false
is_some (some i) = true

unfoldable pub start_keep_alive : WsOptions → ConnectionState → ConnectionState
start_keep_alive o s =
    if s.closed || is_some s.keep_alive_interval || keep_alive_ms o.keep_alive == 0
    then s
    else record s {
      keep_alive_interval = some s.set_intervals;
      running = s.running ++ s.set_intervals ∷ [];
      set_intervals = s.set_intervals + 1;
    }

abbrev pub finish_init : WsOptions → ConnectionState → ConnectionState
finish_init o s =
    start_keep_alive o
      (safe_send connection_ack (record s { init_timer = false; is_initialized = true }))

unfoldable pub handle_connection_init : WsOptions → ConnectionState → ConnectionState
handle_connection_init o s =
    if o.has_on_connect then record s { connecting = s.connecting + 1 } else finish_init o s

-- `onConnect` has settled: whether it succeeded.
abbrev pub after_on_connect : WsOptions → Bool → ConnectionState → ConnectionState
after_on_connect o true s = if s.closed then s else finish_init o s
after_on_connect o false s = close_socket forbidden s

abbrev pub settle_connect : WsOptions → Bool → ℕ → ConnectionState → ConnectionState
settle_connect o ok zero s = s
settle_connect o ok (suc n) s = after_on_connect o ok (record s { connecting = n })

unfoldable pub handle_subscribe : ℕ → ConnectionState → ConnectionState
handle_subscribe id s =
    if not s.is_initialized
    then close_socket unauthorized s
    else (if is_some (get s.streams.subscriptions id)
        then close_socket subscriber_already_exists s
        else with_streams (start_handle id) s)

abbrev pub complete_handle : ℕ → Option ℕ → Streams → Streams
complete_handle id none t = t
complete_handle id (some n) t = record (abort n t) { subscriptions = delete t.subscriptions id }

-- `String` of an id.
module _ (string_of : ℕ → ℕ) (o : WsOptions) where
  unfoldable pub process_message : ClientMessage → ConnectionState → ConnectionState
  process_message connection_init s =
      if s.is_initialized
      then close_socket too_many_initialisation_requests s
      else handle_connection_init o s
  process_message (subscribe_message id) s = handle_subscribe id s
  process_message (client_complete id) s =
      with_streams (complete_handle (string_of id) (get s.streams.subscriptions (string_of id))) s
  process_message (client_ping payload) s = safe_send (server_pong payload) s
  process_message client_pong s = s
  process_message unknown_type s = close_socket bad_request s

  -- The message as it was parsed, `none` if that failed or gave null.
  abbrev pub dispatch_parsed : Option ClientMessage → ConnectionState → ConnectionState
  dispatch_parsed none s = close_socket bad_request s
  dispatch_parsed (some message) s = process_message message s

  unfoldable pub handle_message : Option ClientMessage → ℕ → ConnectionState → ConnectionState
  handle_message message now s =
      if s.registered then dispatch_parsed message (record s { last_activity_at = now }) else s
