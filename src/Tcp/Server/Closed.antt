-- ===== src/Tcp/Server/Closed.antt =====
-- What becomes of the requests that packages/microservices/src/transports/tcp.server.ts has sent
-- when it is closed.
use elysia_nest.Base.{
  ℕ, ◌≡◌, refl, ap, ◌∙◌, sym, subst, not, ◌||◌, Option, none, some, List, [], ◌∷◌, ◌++◌, Text,
  text_eq, nat_eq, get, Bool-cases, inl, inr,
}
use elysia_nest.Tcp.Wire.{Value, text, other, Frame, Parsed, null_value, fields, Wire, truthy}
use elysia_nest.Tcp.Frames.{Stream, receive}
use elysia_nest.Tcp.Client.{timed_out}
use elysia_nest.Tcp.Server.{
  TcpServer, Answer, returned, threw, handle_parsed, handle_frame, dispatch, dispatch_event,
  handle_message_line, handle_lines, handle_chunk, handle_data, answer_request, drop_socket,
  add_message_handler, add_event_handler, emit_event, fire_timer, close, get_value,
}

-- What can happen to a server that is closed, other than a timer and a new request.
pub data LateEvent (J : Type 0) : Type 0 where
  data_comes : ℕ → List ℕ → LateEvent J
  socket_ends : ℕ → LateEvent J
  handler_settles : ℕ → Option (Value J) → Answer J → LateEvent J
  message_handler_added : Text → ℕ → LateEvent J
  event_handler_added : Text → ℕ → LateEvent J
  event_emitted : Text → Text → Option (Value J) → LateEvent J

module _ {J D : Type 0} (w : Wire J D) where
  abbrev pub late_step : LateEvent J → TcpServer J D → TcpServer J D
  late_step (data_comes socket chunk) s = handle_data w socket chunk s
  late_step (socket_ends socket) s = drop_socket w socket s
  late_step (handler_settles socket id a) s = answer_request w socket id a s
  late_step (message_handler_added p h) s = add_message_handler w p h s
  late_step (event_handler_added p h) s = add_event_handler w p h s
  late_step (event_emitted id p payload) s = emit_event w id p payload s

  abbrev pub late_run : List (LateEvent J) → TcpServer J D → TcpServer J D
  late_run [] s = s
  late_run (e ∷ es) s = late_run es (late_step e s)

  -- No reply is awaited, and the requests are as they were.
  record IsLeft (s t : TcpServer J D) : Type 0 where
    awaits_none : t.pending_replies ≡ []
    same_settled : t.settled ≡ s.settled
    same_timers : t.timers ≡ s.timers

  IsLeft-refl : (s : TcpServer J D) → s.pending_replies ≡ [] → IsLeft s s
  IsLeft-refl s h = record { awaits_none = h; same_settled = refl; same_timers = refl }

  IsLeft-trans : (s t u : TcpServer J D) → IsLeft s t → IsLeft t u → IsLeft s u
  IsLeft-trans s t u a b = record {
    awaits_none = b.awaits_none;
    same_settled = b.same_settled ∙ a.same_settled;
    same_timers = b.same_timers ∙ a.same_timers;
  }

  nothing_found : (v : Option (Value J)) → get_value [] v ≡ none
  unfolding get
  nothing_found none = refl
  nothing_found (some (text t)) = refl
  nothing_found (some (other j)) = refl

  module _ (s : TcpServer J D) (h : s.pending_replies ≡ []) where
    IsLeft-effects :
        (t : TcpServer J D)
        → t.pending_replies ≡ s.pending_replies
        → t.settled ≡ s.settled
        → t.timers ≡ s.timers
        → IsLeft s t
    IsLeft-effects t a b c = record { awaits_none = a ∙ h; same_settled = b; same_timers = c }

    IsLeft-dispatch_event : (o : Option ℕ) (f : Frame J) → IsLeft s (dispatch_event w o f s)
    IsLeft-dispatch_event none f = IsLeft-refl s h
    IsLeft-dispatch_event (some n) f = IsLeft-effects _ refl refl refl

    IsLeft-dispatch : (o : Option ℕ) (socket : ℕ) (f : Frame J) → IsLeft s (dispatch w o socket f s)
    IsLeft-dispatch none socket f = IsLeft-dispatch_event (get_value s.event_handlers f.pattern_) f
    IsLeft-dispatch (some n) socket f = IsLeft-effects _ refl refl refl

    IsLeft-handle_parsed :
        (socket : ℕ) (p : Option (Parsed J)) → IsLeft s (handle_parsed w socket p s)
    IsLeft-handle_parsed socket none = IsLeft-refl s h
    IsLeft-handle_parsed socket (some null_value) = IsLeft-effects _ refl refl refl
    IsLeft-handle_parsed socket (some (fields f)) =
        elim (Bool-cases (not (truthy w f.id) || not (truthy w f.pattern_))) [
          | inl e ↦ rw e (IsLeft-refl s h)
          | inr e ↦ rw e (
              subst (λ o. IsLeft s (handle_frame w o socket f s))
                (sym (ap (λ m. get_value m f.id) h ∙ nothing_found f.id))
                (IsLeft-dispatch (get_value s.message_handlers f.pattern_) socket f))
        ]

  IsLeft-handle_lines :
      (socket : ℕ) (lines : List Text) (s : TcpServer J D)
      → s.pending_replies ≡ []
      → IsLeft s (handle_lines w socket s lines)
  unfolding handle_lines handle_message_line
  IsLeft-handle_lines socket [] s h = IsLeft-refl s h
  IsLeft-handle_lines socket (line ∷ lines) s h =
      let first = IsLeft-handle_parsed s h socket (w.parse line) in
      IsLeft-trans s _ _ first (IsLeft-handle_lines socket lines _ first.awaits_none)

  IsLeft-handle_chunk :
      (socket : ℕ) (chunk : List ℕ) (stream : Option (Stream D)) (s : TcpServer J D)
      → s.pending_replies ≡ []
      → IsLeft s (handle_chunk w socket chunk stream s)
  IsLeft-handle_chunk socket chunk none s h = IsLeft-refl s h
  IsLeft-handle_chunk socket chunk (some stream) s h =
      elim (Bool-cases (receive w stream chunk).overflow) [
        | inl e ↦ rw e (IsLeft-effects s h _ refl refl refl)
        | inr e ↦ rw e (
            IsLeft-trans s _ _ (IsLeft-effects s h _ refl refl refl)
              (IsLeft-handle_lines socket (receive w stream chunk).lines _ h))
      ]

  IsLeft-late_step :
      (e : LateEvent J) (s : TcpServer J D) → s.pending_replies ≡ [] → IsLeft s (late_step e s)
  unfolding handle_data drop_socket answer_request add_message_handler add_event_handler emit_event
  IsLeft-late_step (data_comes socket chunk) s h =
      IsLeft-handle_chunk socket chunk (get s.streams socket) s h
  IsLeft-late_step (socket_ends socket) s h = IsLeft-effects s h _ refl refl refl
  IsLeft-late_step (handler_settles socket id (returned v)) s h =
      IsLeft-effects s h _ refl refl refl
  IsLeft-late_step (handler_settles socket id (threw m)) s h = IsLeft-effects s h _ refl refl refl
  IsLeft-late_step (message_handler_added p n) s h = IsLeft-effects s h _ refl refl refl
  IsLeft-late_step (event_handler_added p n) s h = IsLeft-effects s h _ refl refl refl
  IsLeft-late_step (event_emitted id p payload) s h = IsLeft-effects s h _ refl refl refl

  IsLeft-late_run :
      (es : List (LateEvent J)) (s : TcpServer J D)
      → s.pending_replies ≡ []
      → IsLeft s (late_run es s)
  IsLeft-late_run [] s h = IsLeft-refl s h
  IsLeft-late_run (e ∷ es) s h =
      let first = IsLeft-late_step e s h in
      IsLeft-trans s _ _ first (IsLeft-late_run es _ first.awaits_none)

  -- A request whose timer runs when the server is closed: neither the close settles it, nor does
  -- anything that comes after, in any order: data on the sockets, the reply to the request among it,
  -- sockets that end, handlers that settle or are added, and events that the server emits. When its
  -- timer then fires, the request is settled as timed out.
  pub close_leaves_requests :
      (s : TcpServer J D) (n : ℕ) (id : Text) (es : List (LateEvent J))
      → get s.timers n ≡ some id
      → ((late_run es (close w s)).settled ≡ s.settled)
        × (get (late_run es (close w s)).timers n ≡ some id)
        × ((fire_timer w n
              (get (late_run es (close w s)).timers n)
              (late_run es (close w s))).settled
            ≡ s.settled ++ (n, timed_out) ∷ [])
  unfolding close
  close_leaves_requests s n id es runs =
      let left = IsLeft-late_run es (close w s) refl in
      let at : get (late_run es (close w s)).timers n ≡ some id =
        ap (λ m. get m n) left.same_timers ∙ runs in
      (
        left.same_settled,
        at,
        subst
            (λ o.
              (fire_timer w n o (late_run es (close w s))).settled
              ≡ s.settled ++ (n, timed_out) ∷ [])
            (sym at) (ap (λ l. l ++ (n, timed_out) ∷ []) left.same_settled),
      )
