-- ===== src/Apollo/Session.antt =====
-- What can happen to a connection of packages/apollo/src/services/graphql-ws.handler.ts, as events.
pub mod Sound
use elysia_nest.Base.{
  ℕ, ◌≡◌, ◌+◌, zero, suc, Bool, true, false, ◌&&◌, ◌||◌, not, Option, none, some, List, [], ◌∷◌,
  ◌++◌, nat_eq, ◌==◌, ltb, if◌then◌else◌, Map, get, put, delete, values, has, filter, get_elem?,
}
use elysia_nest.Apollo.Timeouts.{WsOptions, keep_alive_ms, resolve_keep_alive_timeout}
use elysia_nest.Apollo.Streams.{
  Stage, setting_up, waiting_next, executing, returning, SubscriptionHandle, Streams, no_streams,
  start_handle, abort, abort_all, finish_handle, start_loop, discard_stream, leave_loop, set_stage,
}
use elysia_nest.Apollo.Connection.{
  ServerMessage, connection_ack, server_ping, next_message, complete_message, error_message,
  ClientMessage, CloseCode, keep_alive_timeout_close_code, connection_initialisation_timeout,
  ConnectionState, SetupResult, setup_threw, setup_errors, setup_result, setup_stream, NextResult,
  aborted_first, next_done, next_value, next_threw, ExecuteResult, execute_threw, executed,
  hook_threw, open_connection, safe_send, close_socket, with_streams, handle_close, dispose,
  settle_connect, handle_message,
}
use elysia_nest.Apollo.Loop.{
  is_setting_up, is_waiting_next, is_executing, is_returning, end_setup, after_next, after_execute,
  at_stage,
}

-- What can happen to a connection.
pub data ConnectionEvent : Type 0 where
  message_in : Option ClientMessage → ℕ → ConnectionEvent
  connect_settled : Bool → ConnectionEvent
  setup_settled : ℕ → SetupResult → ConnectionEvent
  next_settled : ℕ → NextResult → ConnectionEvent
  execute_settled : ℕ → ExecuteResult → ConnectionEvent
  return_settled : ℕ → ConnectionEvent
  -- An interval and the time, and whether a hook of handleClose throws.
  interval_ticks : ℕ → ℕ → Bool → ConnectionEvent
  init_timer_fires : ConnectionEvent
  -- Whether a hook of handleClose throws.
  socket_closed : Bool → ConnectionEvent
  disposing : ConnectionEvent

abbrev pub init_timeout : ConnectionState → ConnectionState
init_timeout s =
    if s.init_timer
    then (if s.registered && not s.is_initialized
        then close_socket connection_initialisation_timeout (record s { init_timer = false })
        else record s { init_timer = false })
    else s

-- The callback of the keep-alive interval; the peer is silent for longer than the timeout.
abbrev pub is_silent : ℕ → ℕ → ConnectionState → Bool
is_silent timeout_ms now s = ltb 0 timeout_ms && ltb (s.last_activity_at + timeout_ms) now

abbrev pub keep_alive_tick : ℕ → ℕ → Bool → ConnectionState → ConnectionState
keep_alive_tick timeout_ms now threw s =
    if is_silent timeout_ms now s
    then handle_close threw (close_socket keep_alive_timeout_close_code s)
    else safe_send server_ping s

abbrev pub hooks_return : ConnectionEvent → Bool
hooks_return (interval_ticks i now threw) = not threw
hooks_return (socket_closed threw) = not threw
hooks_return _ = true

module _ (string_of : ℕ → ℕ) (o : WsOptions) where
  unfoldable pub step : ConnectionEvent → ConnectionState → ConnectionState
  step (message_in message now) s = handle_message string_of o message now s
  step (connect_settled ok) s = settle_connect o ok s.connecting s
  step (setup_settled n r) s =
      at_stage is_setting_up (end_setup n r) (get_elem? s.streams.handles n) s
  step (next_settled n r) s =
      at_stage is_waiting_next (after_next n r) (get_elem? s.streams.handles n) s
  step (execute_settled n r) s =
      at_stage is_executing (after_execute n r) (get_elem? s.streams.handles n) s
  step (return_settled n) s =
      at_stage is_returning (λ h. with_streams (finish_handle n)) (get_elem? s.streams.handles n) s
  step (interval_ticks i now threw) s =
      if has s.running i
      then keep_alive_tick (resolve_keep_alive_timeout o (keep_alive_ms o.keep_alive)) now threw s
      else s
  step init_timer_fires s = init_timeout s
  step (socket_closed threw) s = handle_close threw s
  step disposing s = dispose s

  -- While the hooks onDisconnect and onClose do not throw.
  pub data Reachable : ConnectionState → Type 0 where
    opens : (now : ℕ) → Reachable (open_connection now)
    steps :
        {s : ConnectionState} (e : ConnectionEvent)
        → hooks_return e ≡ true
        → Reachable s
        → Reachable (step e s)
