-- ===== src/Apollo/Session/Sound/Calls.antt =====
-- The calls of a connection and its timer for connection_init keep what holds of the connection.
use elysia_nest.Base.{
  some_inj, ℕ, ◌≡◌, refl, sym, ap, ◌∙◌, subst, Bool, true, false, ◌&&◌, not, Option, none, some, [],
  nat_eq, get, delete, get_elem?, Option-cases, inl, inr, arith,
}
use elysia_nest.Apollo.Streams.{
  finished, release_own, Stage, setting_up, waiting_next, executing, returning, SubscriptionHandle,
  Streams, finish_handle, start_loop, discard_stream, leave_loop, set_stage,
}
use elysia_nest.Apollo.Streams.Tracked.{is_pulling, pulls}
use elysia_nest.Apollo.Streams.Tracked.Changes.{
  IsTracked-leave_loop, IsTracked-set_stage, IsTracked-finish_handle, IsTracked-start_loop,
  IsTracked-discard_stream,
}
use elysia_nest.Apollo.Connection.{
  next_message, ConnectionState, SetupResult, setup_threw, setup_errors, setup_result, setup_stream,
  NextResult, aborted_first, next_done, next_value, next_threw, ExecuteResult, execute_threw,
  executed, hook_threw, safe_send, with_streams,
}
use elysia_nest.Apollo.Loop.{
  is_setting_up, is_waiting_next, is_executing, is_returning, send_error, end_setup, leave,
  continue_loop, after_next, after_execute, at_stage,
}
use elysia_nest.Apollo.Session.{init_timeout}
use elysia_nest.Apollo.Session.Sound.{HasSound, HasSound-streams, if_cases}

release_own-empty : (n : ℕ) (o : Option SubscriptionHandle) → release_own n o [] ≡ []
unfolding get delete
release_own-empty n none = refl
release_own-empty n (some h) = refl

finish_handle-empty :
    (n : ℕ) (t : Streams) → t.subscriptions ≡ [] → (finish_handle n t).subscriptions ≡ []
unfolding finish_handle
finish_handle-empty n t empty =
    ap (release_own n (get_elem? t.handles n)) empty ∙ release_own-empty n (get_elem? t.handles n)

-- A call that has no loop is not pulling.
pulls_none : (a : Bool) (st : Stage) → is_pulling st ≡ false → (not a && is_pulling st) ≡ false
pulls_none a st e = rw e (ground arith)

module _ (n : ℕ) (h : SubscriptionHandle) (s : ConnectionState)
    (at : get_elem? s.streams.handles n ≡ some h) (sound : HasSound s) where
  -- What is known of the handle n is known of h.
  of_handle :
      (P : SubscriptionHandle → Type 0)
      → P h
      → (g : SubscriptionHandle) → get_elem? s.streams.handles n ≡ some g
      → P g
  of_handle P p g at' = subst P (sym (some_inj h g (sym at ∙ at'))) p

  pub HasSound-finish_handle :
      is_pulling h.stage ≡ false → HasSound (with_streams (finish_handle n) s)
  HasSound-finish_handle idle =
      HasSound-streams s _
        (IsTracked-finish_handle s.streams sound.is_tracked n
          (of_handle (λ g. pulls g ≡ false) (pulls_none h.aborted h.stage idle)))
        (finish_handle-empty n s.streams) sound

  HasSound-leave : is_pulling h.stage ≡ true → HasSound (leave n s)
  unfolding leave_loop
  HasSound-leave pulling =
      HasSound-streams s _
        (IsTracked-leave_loop s.streams sound.is_tracked n
          (of_handle (λ g. is_pulling g.stage ≡ true) pulling))
        (λ empty. empty) sound

  HasSound-set_stage :
      (st : Stage)
      → is_pulling st ≡ true
      → is_pulling h.stage ≡ true
      → HasSound (with_streams (set_stage n st) s)
  unfolding set_stage
  HasSound-set_stage st goes_on pulling =
      HasSound-streams s _
        (IsTracked-set_stage s.streams sound.is_tracked n st goes_on
          (of_handle (λ g. is_pulling g.stage ≡ true) pulling))
        (λ empty. empty) sound

  pub HasSound-end_setup : (r : SetupResult) → h.stage ≡ setting_up → HasSound (end_setup n r h s)
  unfolding end_setup start_loop discard_stream
  HasSound-end_setup setup_threw e = HasSound-finish_handle (ap is_pulling e)
  HasSound-end_setup setup_errors e = HasSound-finish_handle (ap is_pulling e)
  HasSound-end_setup (setup_result v) e = HasSound-finish_handle (ap is_pulling e)
  HasSound-end_setup (setup_stream it) e =
      if_cases HasSound h.aborted _ _
        (λ aborted.
          HasSound-streams s _
            (IsTracked-finish_handle (discard_stream it s.streams)
              (IsTracked-discard_stream s.streams sound.is_tracked it) n
              (of_handle (λ g. pulls g ≡ false) (pulls_none h.aborted h.stage (ap is_pulling e))))
            (finish_handle-empty n (discard_stream it s.streams)) sound)
        (λ live.
          HasSound-streams s _
            (IsTracked-start_loop s.streams sound.is_tracked n it h at live
              (of_handle (λ g. g.stage ≡ setting_up) e))
            (λ empty. empty) sound)

module _ (n : ℕ) (h : SubscriptionHandle) where
  HasSound-send_error : (s : ConnectionState) → HasSound s → HasSound (send_error h s)
  HasSound-send_error s sound = if_cases HasSound h.aborted _ _ (λ e. sound) (λ e. sound)

  HasSound-continue_loop :
      (s : ConnectionState)
      → get_elem? s.streams.handles n ≡ some h
      → is_pulling h.stage ≡ true
      → HasSound s
      → HasSound (continue_loop n h s)
  HasSound-continue_loop s at pulling sound =
      if_cases HasSound h.aborted _ _ (λ e. HasSound-leave n h s at sound pulling)
        (λ e. HasSound-set_stage n h s at sound waiting_next refl pulling)

  send_error-streams : (s : ConnectionState) → (send_error h s).streams ≡ s.streams
  send_error-streams s = if_cases (λ x. x.streams ≡ s.streams) h.aborted _ _ (λ e. refl) (λ e. refl)

  at_after_error :
      (s : ConnectionState)
      → get_elem? s.streams.handles n ≡ some h
      → get_elem? (send_error h s).streams.handles n ≡ some h
  at_after_error s at = ap (λ t. get_elem? t.handles n) (send_error-streams s) ∙ at

  pub HasSound-after_next :
      (r : NextResult) (s : ConnectionState)
      → get_elem? s.streams.handles n ≡ some h
      → is_pulling h.stage ≡ true
      → HasSound s
      → HasSound (after_next n r h s)
  unfolding after_next
  HasSound-after_next aborted_first s at pulling sound =
      if_cases HasSound h.aborted _ _ (λ e. HasSound-leave n h s at sound pulling) (λ e. sound)
  HasSound-after_next next_threw s at pulling sound =
      HasSound-leave n h (send_error h s) (at_after_error s at) (HasSound-send_error s sound)
        pulling
  HasSound-after_next next_done s at pulling sound =
      if_cases HasSound h.aborted _ _ (λ e. HasSound-leave n h s at sound pulling)
        (λ e. HasSound-leave n h s at sound pulling)
  HasSound-after_next next_value s at pulling sound =
      if_cases HasSound h.aborted _ _ (λ e. HasSound-leave n h s at sound pulling)
        (λ e. HasSound-set_stage n h s at sound executing refl pulling)

  pub HasSound-after_execute :
      (r : ExecuteResult) (s : ConnectionState)
      → get_elem? s.streams.handles n ≡ some h
      → is_pulling h.stage ≡ true
      → HasSound s
      → HasSound (after_execute n r h s)
  unfolding after_execute
  HasSound-after_execute execute_threw s at pulling sound =
      HasSound-continue_loop (send_error h s) (at_after_error s at) pulling
        (HasSound-send_error s sound)
  HasSound-after_execute (executed v) s at pulling sound =
      HasSound-continue_loop (safe_send _ s) at pulling sound
  HasSound-after_execute (hook_threw v) s at pulling sound =
      HasSound-continue_loop (send_error h (safe_send (next_message h.id v) s))
        (at_after_error (safe_send (next_message h.id v) s) at) pulling
        (HasSound-send_error (safe_send (next_message h.id v) s) sound)

-- A step of a call at the stage where it stands.
pub HasSound-at_stage :
    (test : Stage → Bool) (body : SubscriptionHandle → ConnectionState → ConnectionState) (n : ℕ)
    (s : ConnectionState)
    → ((h : SubscriptionHandle)
        → get_elem? s.streams.handles n ≡ some h
        → test h.stage ≡ true
        → HasSound (body h s))
    → HasSound s
    → HasSound (at_stage test body (get_elem? s.streams.handles n) s)
HasSound-at_stage test body n s k sound = elim (Option-cases (get_elem? s.streams.handles n)) [
  | inl e ↦ subst (λ o. HasSound (at_stage test body o s)) (sym e) sound
  | inr (h, e) ↦
      subst (λ o. HasSound (at_stage test body o s)) (sym e)
        (if_cases HasSound (test h.stage) _ _ (k h e) (λ no. sound))
]

pub setting_up_only : (st : Stage) → is_setting_up st ≡ true → st ≡ setting_up
setting_up_only setting_up e = refl
setting_up_only waiting_next e = absurd (ground arith)
setting_up_only executing e = absurd (ground arith)
setting_up_only returning e = absurd (ground arith)
setting_up_only finished e = absurd (ground arith)

pub waiting_pulls : (st : Stage) → is_waiting_next st ≡ true → is_pulling st ≡ true
waiting_pulls waiting_next e = refl
waiting_pulls setting_up e = absurd (ground arith)
waiting_pulls executing e = absurd (ground arith)
waiting_pulls returning e = absurd (ground arith)
waiting_pulls finished e = absurd (ground arith)

pub executing_pulls : (st : Stage) → is_executing st ≡ true → is_pulling st ≡ true
executing_pulls executing e = refl
executing_pulls setting_up e = absurd (ground arith)
executing_pulls waiting_next e = absurd (ground arith)
executing_pulls returning e = absurd (ground arith)
executing_pulls finished e = absurd (ground arith)

pub returning_idle : (st : Stage) → is_returning st ≡ true → is_pulling st ≡ false
returning_idle returning e = refl
returning_idle setting_up e = refl
returning_idle waiting_next e = absurd (ground arith)
returning_idle executing e = absurd (ground arith)
returning_idle finished e = refl

pub HasSound-init_timeout : (s : ConnectionState) → HasSound s → HasSound (init_timeout s)
HasSound-init_timeout s h =
    if_cases HasSound s.init_timer _ _
      (λ e.
        if_cases HasSound (s.registered && not s.is_initialized) _ _ (λ e'. timer_off)
          (λ e'. timer_off))
      (λ e. h)
  where
    timer_off : HasSound (record s { init_timer = false })
    timer_off = record {
      is_tracked = h.is_tracked;
      one_interval = h.one_interval;
      is_open = h.is_open;
      is_empty = λ closed. let (a, b, c) = h.is_empty closed in (a, b, refl);
    }
