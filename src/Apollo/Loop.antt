-- ===== src/Apollo/Loop.antt =====
-- The calls of executeSubscription and handleAsyncIterator of
-- packages/apollo/src/services/graphql-ws.handler.ts, from one await to the next.
use elysia_nest.Base.{ℕ, Bool, true, false, Option, none, some, nat_eq, if◌then◌else◌}
use elysia_nest.Apollo.Streams.{
  Stage, setting_up, waiting_next, executing, returning, SubscriptionHandle, finish_handle,
  start_loop, discard_stream, leave_loop, set_stage,
}
use elysia_nest.Apollo.Connection.{
  next_message, complete_message, error_message, ConnectionState, SetupResult, setup_threw,
  setup_errors, setup_result, setup_stream, NextResult, aborted_first, next_done, next_value,
  next_threw, ExecuteResult, execute_threw, executed, hook_threw, safe_send, with_streams,
}

abbrev pub is_setting_up : Stage → Bool
is_setting_up setting_up = true
is_setting_up _ = false

abbrev pub is_waiting_next : Stage → Bool
is_waiting_next waiting_next = true
is_waiting_next _ = false

abbrev pub is_executing : Stage → Bool
is_executing executing = true
is_executing _ = false

abbrev pub is_returning : Stage → Bool
is_returning returning = true
is_returning _ = false

-- An error is sent unless the call was aborted.
abbrev pub send_error : SubscriptionHandle → ConnectionState → ConnectionState
send_error h s = if h.aborted then s else safe_send (error_message h.id) s

-- The rest of executeSubscription, its `finally` and the `catch` of handleSubscribe.
unfoldable pub end_setup : ℕ → SetupResult → SubscriptionHandle → ConnectionState → ConnectionState
end_setup n setup_threw h s = safe_send (error_message h.id) (with_streams (finish_handle n) s)
end_setup n setup_errors h s = with_streams (finish_handle n) (safe_send (error_message h.id) s)
end_setup n (setup_result v) h s =
    with_streams (finish_handle n)
      (safe_send (complete_message h.id) (safe_send (next_message h.id v) s))
end_setup n (setup_stream it) h s =
    if h.aborted
    then with_streams (λ t. finish_handle n (discard_stream it t)) s
    else with_streams (start_loop n it) s

abbrev pub leave : ℕ → ConnectionState → ConnectionState
leave n s = with_streams (leave_loop n) s

-- The test of the loop.
abbrev pub continue_loop : ℕ → SubscriptionHandle → ConnectionState → ConnectionState
continue_loop n h s = if h.aborted then leave n s else with_streams (set_stage n waiting_next) s

-- What follows `nextOrAbort`, which gives null only if the signal is aborted.
unfoldable pub after_next : ℕ → NextResult → SubscriptionHandle → ConnectionState → ConnectionState
after_next n aborted_first h s = if h.aborted then leave n s else s
after_next n next_threw h s = leave n (send_error h s)
after_next n next_done h s =
    if h.aborted then leave n s else leave n (safe_send (complete_message h.id) s)
after_next n next_value h s =
    if h.aborted then leave n s else with_streams (set_stage n executing) s

-- What follows `execute` and `onNext`.
unfoldable pub after_execute :
    ℕ → ExecuteResult → SubscriptionHandle → ConnectionState → ConnectionState
after_execute n execute_threw h s = continue_loop n h (send_error h s)
after_execute n (executed v) h s = continue_loop n h (safe_send (next_message h.id v) s)
after_execute n (hook_threw v) h s =
    continue_loop n h (send_error h (safe_send (next_message h.id v) s))

-- A step of the call of a handle that stands where the test says.
abbrev pub at_stage :
    (Stage → Bool)
    → (SubscriptionHandle → ConnectionState → ConnectionState)
    → Option SubscriptionHandle
    → ConnectionState
    → ConnectionState
at_stage test body none s = s
at_stage test body (some h) s = if test h.stage then body h s else s
