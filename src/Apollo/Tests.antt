-- ===== src/Apollo/Tests.antt =====
-- A connection with one subscription, and the theorems on it.
use elysia_nest.Base.{
  ℕ, ◌≡◌, ◌≢◌, refl, true, false, some, none, [], ◌∷◌, get, put, delete, ◌≤◌, ◌+◌, ◌*◌, ◌⊎◌, nat_eq,
  ap, arith,
}
use elysia_nest.Apollo.Timeouts.{
  min, keep_alive_ms, WsOptions, unset, resolve_transport_idle_timeout, derive_idle_timeout,
  resolve_keep_alive_timeout, resolve_transport_idle_timeout_bounds,
}
use elysia_nest.Apollo.Streams.{
  start_handle, start_loop, SubscriptionHandle, finished, executing, set_stage, abort, abort_all,
}
use elysia_nest.Apollo.Connection.{
  ConnectionState, connection_init, subscribe_message, client_complete, setup_stream, next_value,
  open_connection, handle_message, process_message, handle_subscribe, handle_connection_init,
  start_keep_alive, handle_close, cleanup_connection,
}
use elysia_nest.Apollo.Loop.{end_setup, after_next}
use elysia_nest.Apollo.Session.{
  message_in, setup_settled, next_settled, socket_closed, step, Reachable, opens, steps,
}
use elysia_nest.Apollo.Session.Sound.Released.{
  all_in, entry_iterators, closed_releases, calls_listed, complete_ends,
}
use elysia_nest.Apollo.Streams.Tracked.{is_finished}

abbrev options : WsOptions
options = record {
  transport_idle_timeout = none;
  keep_alive = unset;
  keep_alive_timeout = unset;
  has_on_connect = false;
}

abbrev as_string : ℕ → ℕ
as_string id = id

-- The subscription 7 pulls the iterator 5, and has got a value.
abbrev subscribed : ConnectionState
subscribed = step as_string options (next_settled 0 next_value) (
    step as_string options (setup_settled 0 (setup_stream 5)) (
      step as_string options (message_in (some (subscribe_message 7)) 20)
        (step as_string options (message_in (some connection_init) 10) (open_connection 0))))

subscribed-Reachable : Reachable as_string options subscribed
subscribed-Reachable = steps (next_settled 0 next_value) refl (
    steps (setup_settled 0 (setup_stream 5)) refl (
      steps (message_in (some (subscribe_message 7)) 20) refl
        (steps (message_in (some connection_init) 10) refl (opens 0))))

abbrev ended : ConnectionState
ended = step as_string options (socket_closed false) subscribed

-- The iterator was made, and its `return` was called.
ended_returns : (ended.streams.obtained ≡ 5 ∷ []) × (ended.streams.returned ≡ 5 ∷ [])
unfolding step handle_message process_message handle_subscribe handle_connection_init
    start_keep_alive handle_close cleanup_connection end_setup after_next start_handle start_loop
    set_stage abort abort_all get put
ended_returns = (refl, refl)

closed_releases_example :
    (ended.streams.subscriptions ≡ [])
    × (ended.running ≡ [])
    × (ended.init_timer ≡ false)
    × (all_in ended.streams.returned ended.streams.obtained ≡ true)
unfolding step handle_message process_message handle_subscribe handle_connection_init
    start_keep_alive handle_close cleanup_connection end_setup after_next start_handle start_loop
    set_stage abort abort_all get put
closed_releases_example =
    closed_releases as_string options ended (steps (socket_closed false) refl subscribed-Reachable)
      refl

abbrev first_handle : SubscriptionHandle
first_handle = record { id = 7; aborted = false; iterator = some 5; stage = executing }

executing_goes_on : executing ≢ finished
executing_goes_on e = let same = ap is_finished e in ground arith

calls_listed_example : get subscribed.streams.subscriptions first_handle.id ≡ some 0
unfolding step handle_message process_message handle_subscribe handle_connection_init
    start_keep_alive end_setup after_next start_handle start_loop set_stage get put
calls_listed_example =
    calls_listed as_string options subscribed 0 first_handle subscribed-Reachable refl refl
      executing_goes_on

-- A hook throws at the close: the connection stays in the map, its streams are released.
closed_stays :
    ((step as_string options (socket_closed true) subscribed).registered ≡ true)
    × ((step as_string options (socket_closed true) subscribed).streams.returned ≡ 5 ∷ [])
unfolding step handle_message process_message handle_subscribe handle_connection_init
    start_keep_alive handle_close cleanup_connection end_setup after_next start_handle start_loop
    set_stage abort abort_all get put
closed_stays = (refl, refl)

abbrev completed : ConnectionState
completed = step as_string options (message_in (some (client_complete 7)) 30) subscribed

abbrev aborted_handle : SubscriptionHandle
aborted_handle = record { id = 7; aborted = true; iterator = some 5; stage = executing }

complete_ends_example :
    (get completed.streams.subscriptions 7 ≡ none)
    × (all_in completed.streams.returned
          (entry_iterators subscribed.streams (get subscribed.streams.subscriptions 7))
        ≡ true)
    × ((aborted_handle.aborted ≡ true) ⊎ (aborted_handle.stage ≡ finished))
unfolding step handle_message process_message handle_subscribe handle_connection_init
    start_keep_alive end_setup after_next start_handle start_loop set_stage abort get put delete
complete_ends_example =
    complete_ends as_string options subscribed 7 30 0 aborted_handle subscribed-Reachable refl refl
      refl

abbrev seconds : ℕ
seconds = 29

-- Pings every 12 s, a watchdog of 24 s, and a transport timeout of 29 s.
resolve_transport_idle_timeout_bounds_example :
    (seconds ≤ 960)
    × (((n : ℕ) × (options.transport_idle_timeout ≡ some n) × (seconds ≡ min n 960))
        ⊎ ((10 ≤ seconds)
            × ((resolve_keep_alive_timeout options (keep_alive_ms options.keep_alive) + 5000
                  ≤ 1000 * seconds)
                ⊎ (seconds ≡ 960))))
unfolding resolve_transport_idle_timeout derive_idle_timeout
resolve_transport_idle_timeout_bounds_example =
    resolve_transport_idle_timeout_bounds options seconds refl
