-- ===== src/Apollo/Session/Sound.antt =====
-- What holds of a connection in every state: its subscriptions are tracked, at most one interval
-- runs, and nothing is left when it is closed.
mod Calls
pub mod Released
use elysia_nest.Base.{
  ℕ, zero, suc, ◌≡◌, refl, sym, ap, ◌∙◌, subst, Bool, true, false, ◌&&◌, ◌||◌, not, Option, none,
  some, List, [], ◌∷◌, ◌++◌, nat_eq, ◌==◌, ltb, if◌then◌else◌, Map, get, put, delete, values, has,
  filter, get_elem?, Bool-cases, Option-cases, inl, inr, arith, beq_self,
}
use elysia_nest.Apollo.Timeouts.{WsOptions, keep_alive_ms, resolve_keep_alive_timeout}
use elysia_nest.Apollo.Streams.{
  Stage, setting_up, waiting_next, executing, returning, SubscriptionHandle, Streams, no_streams,
  start_handle, abort, abort_all, finish_handle, start_loop, discard_stream, leave_loop, set_stage,
}
use elysia_nest.Apollo.Streams.Tracked.{
  IsTracked, IsTracked-no_streams, IsTracked-start_handle, is_pulling, pulls,
}
use elysia_nest.Apollo.Streams.Tracked.Changes.{
  IsTracked-abort, IsTracked-leave_loop, IsTracked-set_stage, IsTracked-finish_handle,
  IsTracked-start_loop, IsTracked-discard_stream, IsTracked-cleanup, IsTracked-delete,
  emptied_releases,
}
use elysia_nest.Apollo.Connection.{
  ServerMessage, ClientMessage, connection_init, subscribe_message, client_complete, client_ping,
  client_pong, unknown_type, CloseCode, ConnectionState, SetupResult, setup_threw, setup_errors,
  setup_result, setup_stream, NextResult, aborted_first, next_done, next_value, next_threw,
  ExecuteResult, execute_threw, executed, hook_threw, open_connection, safe_send, close_socket,
  with_streams, clear_interval, release_all, is_some, cleanup_connection, handle_close, dispose,
  start_keep_alive, finish_init, handle_connection_init, after_on_connect, settle_connect,
  handle_subscribe, complete_handle, process_message, dispatch_parsed, handle_message,
}
use elysia_nest.Apollo.Loop.{
  is_setting_up, is_waiting_next, is_executing, is_returning, send_error, end_setup, leave,
  continue_loop, after_next, after_execute, at_stage,
}
use elysia_nest.Apollo.Session.{
  ConnectionEvent, message_in, connect_settled, setup_settled, next_settled, execute_settled,
  return_settled, interval_ticks, init_timer_fires, socket_closed, disposing, init_timeout,
  is_silent, keep_alive_tick, step, Reachable, opens, steps,
}

abbrev pub interval_list : Option ℕ → List ℕ
interval_list none = []
interval_list (some i) = i ∷ []

record IsSound (streams : Streams) (registered closed init_timer : Bool) (interval : Option ℕ)
    (running : List ℕ) : Type 0 where
  is_tracked : IsTracked streams
  one_interval : running ≡ interval_list interval
  is_open : registered ≡ not closed
  is_empty : closed ≡ true → (streams.subscriptions ≡ []) × (interval ≡ none) × (init_timer ≡ false)

abbrev HasSound : ConnectionState → Type 0
HasSound s = IsSound s.streams s.registered s.closed s.init_timer s.keep_alive_interval s.running

-- A step of the subscriptions that leaves the map empty where it is.
HasSound-streams :
    (s : ConnectionState) (t : Streams)
    → IsTracked t
    → (s.streams.subscriptions ≡ [] → t.subscriptions ≡ [])
    → HasSound s
    → HasSound (record s { streams = t })
HasSound-streams s t k empty h = record {
  is_tracked = k;
  one_interval = h.one_interval;
  is_open = h.is_open;
  is_empty = λ closed.
      let (none_left, no_interval, no_timer) = h.is_empty closed in
      (empty none_left, no_interval, no_timer);
}

if_cases :
    (P : ConnectionState → Type 0) (b : Bool) (x y : ConnectionState)
    → (b ≡ true → P x)
    → (b ≡ false → P y)
    → P (if b then x else y)
if_cases P true x y a b = a refl
if_cases P false x y a b = b refl

clear_own : (i : Option ℕ) → clear_interval i (interval_list i) ≡ []
clear_own none = refl
clear_own (some i) = ground (arith, beq_self i)

record IsReleased (s : ConnectionState) : Type 0 where
  is_tracked : IsTracked s.streams
  is_closed : s.closed ≡ true
  empty : s.streams.subscriptions ≡ []
  no_interval : s.keep_alive_interval ≡ none
  none_runs : s.running ≡ []
  no_timer : s.init_timer ≡ false

cleanup_connection-IsReleased :
    (s : ConnectionState) → HasSound s → IsReleased (cleanup_connection s)
unfolding cleanup_connection
cleanup_connection-IsReleased s h =
    if_cases IsReleased s.closed s _
      (λ closed.
        let (empty, no_interval, no_timer) = h.is_empty closed in
        record {
          is_tracked = h.is_tracked;
          is_closed = closed;
          empty = empty;
          no_interval = no_interval;
          none_runs = h.one_interval ∙ ap interval_list no_interval;
          no_timer = no_timer;
        })
      (λ still. record {
        is_tracked = IsTracked-cleanup s.streams h.is_tracked;
        is_closed = refl;
        empty = refl;
        no_interval = refl;
        none_runs =
            ap (clear_interval s.keep_alive_interval) h.one_interval
            ∙ clear_own s.keep_alive_interval;
        no_timer = refl;
      })

HasSound-unregister :
    (s : ConnectionState) → IsReleased s → HasSound (record s { registered = false })
HasSound-unregister s r = record {
  is_tracked = r.is_tracked;
  one_interval = r.none_runs ∙ sym (ap interval_list r.no_interval);
  is_open = rw r.is_closed refl;
  is_empty = λ closed. (r.empty, r.no_interval, r.no_timer);
}

HasSound-handle_close : (s : ConnectionState) → HasSound s → HasSound (handle_close false s)
unfolding handle_close
HasSound-handle_close s h =
    if_cases HasSound s.registered _ s
      (λ registered. HasSound-unregister _ (cleanup_connection-IsReleased s h)) (λ e. h)

HasSound-start_keep_alive :
    (o : WsOptions) (s : ConnectionState) → HasSound s → HasSound (start_keep_alive o s)
unfolding start_keep_alive
HasSound-start_keep_alive o s h =
    if_cases HasSound (s.closed || is_some s.keep_alive_interval || keep_alive_ms o.keep_alive == 0)
      s _ (λ e. h)
      (λ e. record {
        is_tracked = h.is_tracked;
        one_interval =
            rw (h.one_interval ∙ ap interval_list (none_set s.closed s.keep_alive_interval _ e))
              refl;
        is_open = h.is_open;
        is_empty = λ closed. absurd (ground arith);
      })
  where
    none_set :
        (closed : Bool) (i : Option ℕ) (timer_off : Bool)
        → (closed || is_some i || timer_off) ≡ false
        → i ≡ none
    none_set closed none timer_off e = refl
    none_set closed (some i) timer_off e = absurd (ground arith)

HasSound-finish_init :
    (o : WsOptions) (s : ConnectionState) → HasSound s → HasSound (finish_init o s)
HasSound-finish_init o s h = HasSound-start_keep_alive o _ (record {
  is_tracked = h.is_tracked;
  one_interval = h.one_interval;
  is_open = h.is_open;
  is_empty = λ closed. let (a, b, c) = h.is_empty closed in (a, b, refl);
})

HasSound-settle_connect :
    (o : WsOptions) (ok : Bool) (n : ℕ) (s : ConnectionState)
    → HasSound s
    → HasSound (settle_connect o ok n s)
HasSound-settle_connect o ok zero s h = h
HasSound-settle_connect o true (suc n) s h =
    if_cases HasSound s.closed _ _ (λ e. h)
      (λ e. HasSound-finish_init o (record s { connecting = n }) h)
HasSound-settle_connect o false (suc n) s h = h

HasSound-complete :
    (id : ℕ) (s : ConnectionState)
    → HasSound s
    → HasSound (with_streams (complete_handle id (get s.streams.subscriptions id)) s)
unfolding delete
HasSound-complete id s h = elim (Option-cases (get s.streams.subscriptions id)) [
  | inl e ↦ subst (λ x. HasSound (with_streams (complete_handle id x) s)) (sym e) h
  | inr (n, e) ↦
      subst (λ x. HasSound (with_streams (complete_handle id x) s)) (sym e)
        (HasSound-streams s _ (IsTracked-delete s.streams id n e h.is_tracked)
          (λ empty. ap (λ m. delete m id) empty) h)
]

is_none : (x : Option ℕ) → is_some x ≡ false → x ≡ none
is_none none e = refl
is_none (some n) e = absurd (ground arith)

module _ (string_of : ℕ → ℕ) (o : WsOptions) where
  HasSound-process_message :
      (m : ClientMessage) (s : ConnectionState)
      → s.closed ≡ false
      → HasSound s
      → HasSound (process_message string_of o m s)
  unfolding process_message handle_subscribe handle_connection_init
  HasSound-process_message connection_init s live h =
      if_cases HasSound s.is_initialized _ _ (λ e. h)
        (λ e. if_cases HasSound o.has_on_connect _ _ (λ e'. h) (λ e'. HasSound-finish_init o s h))
  HasSound-process_message (subscribe_message id) s live h =
      if_cases HasSound (not s.is_initialized) _ _ (λ e. h)
        (λ e.
          if_cases HasSound (is_some (get s.streams.subscriptions id)) _ _ (λ e'. h)
            (λ e'. record {
              is_tracked = IsTracked-start_handle id s.streams (is_none _ e') h.is_tracked;
              one_interval = h.one_interval;
              is_open = h.is_open;
              is_empty = λ closed. absurd (ground arith);
            }))
  HasSound-process_message (client_complete id) s live h = HasSound-complete (string_of id) s h
  HasSound-process_message (client_ping payload) s live h = h
  HasSound-process_message client_pong s live h = h
  HasSound-process_message unknown_type s live h = h

  HasSound-handle_message :
      (m : Option ClientMessage) (now : ℕ) (s : ConnectionState)
      → HasSound s
      → HasSound (handle_message string_of o m now s)
  unfolding handle_message
  HasSound-handle_message m now s h =
      if_cases HasSound s.registered _ s (λ e. parsed m (ground (arith, h.is_open))) (λ e. h)
    where
      parsed :
          (m : Option ClientMessage)
          → s.closed ≡ false
          → HasSound (dispatch_parsed string_of o m (record s { last_activity_at = now }))
      parsed none live = h
      parsed (some c) live = HasSound-process_message c (record s { last_activity_at = now }) live h
