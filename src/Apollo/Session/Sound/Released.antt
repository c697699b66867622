-- ===== src/Apollo/Session/Sound/Released.antt =====
-- What holds of a connection in every state, and what follows for closed connections.
use elysia_nest.Base.{
  List, [], ◌∷◌, ◌++◌, ◌⊎◌, Option, not, has-append, Bool-cases, Bool, ◌&&◌, ℕ, ◌≡◌, ◌≢◌, refl, sym,
  ap, ◌∙◌, subst, true, false, none, some, [], nat_eq, if◌then◌else◌, get, get-delete, has,
  get_elem?, Option-cases, inl, inr, arith, beq_self,
}
use elysia_nest.Apollo.Timeouts.{WsOptions, keep_alive_ms, resolve_keep_alive_timeout}
use elysia_nest.Apollo.Streams.{
  SubscriptionHandle, Streams, Stage, setting_up, waiting_next, executing, returning, finished,
  finish_handle, iterator_of, abort,
}
use elysia_nest.Apollo.Streams.Tracked.{IsTracked-no_streams}
use elysia_nest.Apollo.Streams.Tracked.Changes.{emptied_releases}
use elysia_nest.Apollo.Connection.{
  client_complete, keep_alive_timeout_close_code, ConnectionState, close_socket, with_streams,
  handle_close, dispose, complete_handle, process_message, handle_message,
}
use elysia_nest.Apollo.Loop.{
  is_setting_up, is_waiting_next, is_executing, is_returning, end_setup, after_next, after_execute,
}
use elysia_nest.Apollo.Session.{
  ConnectionEvent, message_in, connect_settled, setup_settled, next_settled, execute_settled,
  return_settled, interval_ticks, init_timer_fires, socket_closed, disposing, is_silent, step,
  hooks_return, Reachable, opens, steps,
}
use elysia_nest.Apollo.Streams.Tracked.{is_finished}
use elysia_nest.Apollo.Session.Sound.{
  interval_list, HasSound, if_cases, HasSound-handle_close, HasSound-settle_connect,
  HasSound-handle_message,
}
use elysia_nest.Apollo.Session.Sound.Calls.{
  HasSound-finish_handle, HasSound-end_setup, HasSound-after_next, HasSound-after_execute,
  HasSound-at_stage, setting_up_only, waiting_pulls, executing_pulls, returning_idle,
  HasSound-init_timeout,
}

-- Each of the second list is in the first.
abbrev pub all_in : List ℕ → List ℕ → Bool
all_in xs [] = true
all_in xs (y ∷ ys) = has xs y && all_in xs ys

every_in : (xs ys : List ℕ) → ((y : ℕ) → has ys y ≡ true → has xs y ≡ true) → all_in xs ys ≡ true
every_in xs [] h = refl
every_in xs (y ∷ ys) h =
    ground (arith, h y, beq_self y, every_in xs ys (λ z there. h z (ground (arith, there))))

not_finished : (st : Stage) → st ≢ finished → (true && not (is_finished st)) ≡ true
not_finished finished h = absurd (h refl)
not_finished setting_up h = refl
not_finished waiting_next h = refl
not_finished executing h = refl
not_finished returning h = refl

is_finished-stage : (st : Stage) → is_finished st ≡ true → st ≡ finished
is_finished-stage finished h = refl
is_finished-stage setting_up h = absurd (ground arith)
is_finished-stage waiting_next h = absurd (ground arith)
is_finished-stage executing h = absurd (ground arith)
is_finished-stage returning h = absurd (ground arith)

-- The iterator of an entry of the map, if it has one.
abbrev pub entry_iterators : Streams → Option ℕ → List ℕ
entry_iterators t none = []
entry_iterators t (some n) = iterator_of (get_elem? t.handles n)

module _ (string_of : ℕ → ℕ) (o : WsOptions) where
  HasSound-step :
      (e : ConnectionEvent) (s : ConnectionState)
      → hooks_return e ≡ true
      → HasSound s
      → HasSound (step string_of o e s)
  unfolding step dispose handle_close
  HasSound-step (message_in message now) s quiet h =
      HasSound-handle_message string_of o message now s h
  HasSound-step (connect_settled ok) s quiet h = HasSound-settle_connect o ok s.connecting s h
  HasSound-step (setup_settled n r) s quiet h =
      HasSound-at_stage is_setting_up (end_setup n r) n s
        (λ g at e. HasSound-end_setup n g s at h r (setting_up_only g.stage e)) h
  HasSound-step (next_settled n r) s quiet h =
      HasSound-at_stage is_waiting_next (after_next n r) n s
        (λ g at e. HasSound-after_next n g r s at (waiting_pulls g.stage e) h) h
  HasSound-step (execute_settled n r) s quiet h =
      HasSound-at_stage is_executing (after_execute n r) n s
        (λ g at e. HasSound-after_execute n g r s at (executing_pulls g.stage e) h) h
  HasSound-step (return_settled n) s quiet h =
      HasSound-at_stage is_returning (λ g. with_streams (finish_handle n)) n s
        (λ g at e. HasSound-finish_handle n g s at h (returning_idle g.stage e)) h
  HasSound-step (interval_ticks i now true) s quiet h = absurd (ground arith)
  HasSound-step (interval_ticks i now false) s quiet h =
      if_cases HasSound (has s.running i) _ _
        (λ e.
          if_cases HasSound
            (is_silent (resolve_keep_alive_timeout o (keep_alive_ms o.keep_alive)) now s) _ _
            (λ e'. HasSound-handle_close (close_socket keep_alive_timeout_close_code s) h)
            (λ e'. h))
        (λ e. h)
  HasSound-step init_timer_fires s quiet h = HasSound-init_timeout s h
  HasSound-step (socket_closed true) s quiet h = absurd (ground arith)
  HasSound-step (socket_closed false) s quiet h = HasSound-handle_close s h
  HasSound-step disposing s quiet h = HasSound-handle_close s h

  Reachable-HasSound : (s : ConnectionState) → Reachable string_of o s → HasSound s
  Reachable-HasSound _ (opens now) = record {
    is_tracked = IsTracked-no_streams;
    one_interval = refl;
    is_open = refl;
    is_empty = λ closed. absurd (ground arith);
  }
  Reachable-HasSound _ (steps {s} e quiet r) = HasSound-step e s quiet (Reachable-HasSound s r)

  -- Once a connection is closed, whatever had been going on in it, and if the hooks onDisconnect and
  -- onClose did not throw: no subscription is left in the map, neither the keep-alive interval nor
  -- the timer for connection_init runs, and `return` was called on each iterator that was made.
  pub closed_releases :
      (s : ConnectionState)
      → Reachable string_of o s
      → s.closed ≡ true
      → (s.streams.subscriptions ≡ [])
        × (s.running ≡ [])
        × (s.init_timer ≡ false)
        × (all_in s.streams.returned s.streams.obtained ≡ true)
  closed_releases s r closed =
      let h = Reachable-HasSound s r in
      let (empty, no_interval, no_timer) = h.is_empty closed in
      (
        empty,
        h.one_interval ∙ ap interval_list no_interval,
        no_timer,
        every_in s.streams.returned s.streams.obtained
            (emptied_releases s.streams h.is_tracked empty),
      )

  -- In every state of a connection, while the hooks onDisconnect and onClose do not throw, a call of
  -- executeSubscription that is not aborted and has not ended has the entry of its id in the map of
  -- subscriptions.
  pub calls_listed :
      (s : ConnectionState) (n : ℕ) (h : SubscriptionHandle)
      → Reachable string_of o s
      → get_elem? s.streams.handles n ≡ some h
      → h.aborted ≡ false
      → h.stage ≢ finished
      → get s.streams.subscriptions h.id ≡ some n
  calls_listed s n h r at live goes_on =
      (Reachable-HasSound s r).is_tracked.entry n h at (rw live (not_finished h.stage goes_on))

  completed_entry :
      (id : ℕ) (s : ConnectionState)
      → get (complete_handle id (get s.streams.subscriptions id) s.streams).subscriptions id ≡ none
  completed_entry id s = elim (Option-cases (get s.streams.subscriptions id)) [
    | inl e ↦ subst (λ x. get (complete_handle id x s.streams).subscriptions id ≡ none) (sym e) e
    | inr (n, e) ↦
        subst (λ x. get (complete_handle id x s.streams).subscriptions id ≡ none) (sym e)
          (get-delete s.streams.subscriptions id id ∙ rw (beq_self id) refl)
  ]

  completed_returns :
      (id : ℕ) (t : Streams) (entry : Option ℕ)
      → all_in (complete_handle id entry t).returned (entry_iterators t entry) ≡ true
  unfolding abort
  completed_returns id t none = refl
  completed_returns id t (some n) =
      every_in (t.returned ++ iterator_of (get_elem? t.handles n)) _ (λ y there.
        ground (arith, has-append t.returned (iterator_of (get_elem? t.handles n)) y, there))

  -- After a message that completes an id, if the connection is open and its hooks onDisconnect and
  -- onClose do not throw: the map has no entry for the string of the id, `return` was called on the
  -- iterator of the entry that it had, and each call of executeSubscription for this string, those
  -- included that had lost the entry before, is aborted or has ended.
  pub complete_ends :
      (s : ConnectionState) (id now n : ℕ) (h : SubscriptionHandle)
      → Reachable string_of o s
      → s.registered ≡ true
      → get_elem?
          (step string_of o (message_in (some (client_complete id)) now) s).streams.handles
          n
        ≡ some h
      → h.id ≡ string_of id
      → (get
            (step string_of o (message_in (some (client_complete id)) now) s).streams.subscriptions
            (string_of id)
          ≡ none)
        × (all_in
              (step string_of o (message_in (some (client_complete id)) now) s).streams.returned
              (entry_iterators s.streams (get s.streams.subscriptions (string_of id)))
            ≡ true)
        × ((h.aborted ≡ true) ⊎ (h.stage ≡ finished))
  unfolding step handle_message process_message
  complete_ends s id now n h r there at same =
      let r' = steps (message_in (some (client_complete id)) now) refl r in
      let next =
        process_message string_of o (client_complete id) (record s { last_activity_at = now }) in
      let gone =
        subst (λ b. get (if b then next else s).streams.subscriptions (string_of id) ≡ none)
          (sym there) (completed_entry (string_of id) (record s { last_activity_at = now })) in
      (
        gone,
        subst
            (λ b.
              all_in (if b then next else s).streams.returned
                (entry_iterators s.streams (get s.streams.subscriptions (string_of id)))
              ≡ true)
            (sym there)
            (completed_returns (string_of id) s.streams
              (get s.streams.subscriptions (string_of id))),
        elim (Bool-cases h.aborted) [
          | inl e ↦ inl e
          | inr e ↦ elim (Bool-cases (is_finished h.stage)) [
            | inl f ↦ inr (is_finished-stage h.stage f)
            | inr f ↦
                let listed = (Reachable-HasSound _ r').is_tracked.entry n h at (rw (e, f) refl) in
                absurd (ground (arith, listed, gone, same))
          ]
        ],
      )
