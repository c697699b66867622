-- ===== src/Tcp/Tests.antt =====
-- A wire on which the laws hold, and runs of the TCP transport on it.
use elysia_nest.Base.{
  ℕ, ◌+◌, ◌-◌, ◌≡◌, refl, ap, ◌∙◌, true, false, Option, none, some, List, [], ◌∷◌, ◌++◌, map, Text,
  text_eq, nat_eq, ◌==◌, has, length, length-append, get, put, arith, zero, suc, count, values,
}
use elysia_nest.Tcp.Frames.{new_stream, receive_all}
use elysia_nest.Tcp.Frames.Chunks.{receive_all-line_of}
use elysia_nest.Tcp.Client.{
  Client, Reachable, starts, steps, connecting, connected, sending, closing, socket_closed,
  client_step, new_client, replied, timed_out, send, handle_line,
}
use elysia_nest.Tcp.Client.Accounts.{times_settled}
use elysia_nest.Tcp.Client.Settled.{requests_settled_once, close_settles_all}
use elysia_nest.Tcp.Server.{
  TcpServer, new_server, add_message_handler, handle_message_line, perform, asked, answer_request,
  returned, written, close, send_message, handle_connection, fire_timer,
}
use elysia_nest.Tcp.Server.Closed.{
  LateEvent, data_comes, socket_ends, late_run, close_leaves_requests,
}
use elysia_nest.Tcp.Server.Requests.{request_round_trip, request_of, response_of}
use elysia_nest.Tcp.Wire.{
  Value, text, other, Frame, Parsed, null_value, fields, Wire, WireLaws, newline, join, line_of,
  decoded,
}

abbrev up : ℕ → ℕ
up x = suc (suc (suc (suc (suc (suc (suc (suc (suc (suc (suc x))))))))))

-- A text that ends at 0; its units are shifted, so that none is a line break.
abbrev shifted : Text → Text → Text
shifted [] rest = 0 ∷ rest
shifted (x ∷ t) rest = up x ∷ shifted t rest

abbrev unshifted : Text → Text × Text
unshifted [] = ([], [])
unshifted (zero ∷ t) = ([], t)
unshifted (suc x ∷ t) = let (first, rest) = unshifted t in ((suc x - 11) ∷ first, rest)

unshifted-shifted : (t rest : Text) → unshifted (shifted t rest) ≡ (t, rest)
unshifted-shifted [] rest = refl
unshifted-shifted (x ∷ t) rest =
    rw (unshifted-shifted t rest) (ap (λ y. (y ∷ t, rest)) (omega arith))

abbrev put_field : Option (Value Unit) → Text → Text
put_field none rest = 0 ∷ rest
put_field (some (other j)) rest = 1 ∷ rest
put_field (some (text t)) rest = 2 ∷ shifted t rest

abbrev take_field : Text → Option (Value Unit) × Text
take_field (zero ∷ rest) = (none, rest)
take_field (suc zero ∷ rest) = (some (other tt), rest)
take_field (suc (suc x) ∷ rest) = let (t, more) = unshifted rest in (some (text t), more)
take_field [] = (none, [])

take_field-put_field :
    (v : Option (Value Unit)) (rest : Text) → take_field (put_field v rest) ≡ (v, rest)
take_field-put_field none rest = refl
take_field-put_field (some (other tt)) rest = refl
take_field-put_field (some (text t)) rest = rw (unshifted-shifted t rest) refl

abbrev print_frame : Frame Unit → Text
print_frame f =
    5 ∷ put_field f.id (put_field f.pattern_ (put_field f.payload (put_field f.error [])))

abbrev parse_fields : Text → Frame Unit
parse_fields t =
    let (id, t1) = take_field t in
    let (pattern_, t2) = take_field t1 in
    let (payload, t3) = take_field t2 in
    let (error, t4) = take_field t3 in
    record { id = id; pattern_ = pattern_; payload = payload; error = error }

abbrev parse_text : Text → Option (Parsed Unit)
parse_text [] = none
parse_text (zero ∷ t) = some null_value
parse_text (suc x ∷ t) = some (fields (parse_fields t))

abbrev tiny_wire : Wire Unit Unit
tiny_wire = record {
  truthy_other = λ j. true;
  parse = parse_text;
  stringify = print_frame;
  is_blank = λ t. t == [];
  byte_length = length;
  fresh = tt;
  decode = λ d chunk. (d, chunk);
  utf8 = λ t. t;
}

put_field_line :
    (v : Option (Value Unit)) (rest : Text) → has (put_field v rest) newline ≡ has rest newline
put_field_line none rest = refl
put_field_line (some (other j)) rest = refl
put_field_line (some (text t)) rest = shifted_line t rest
  where
    shifted_line : (t rest : Text) → has (shifted t rest) newline ≡ has rest newline
    shifted_line [] rest = refl
    shifted_line (x ∷ t) rest = ground (arith, shifted_line t rest)

parse_text-print_frame : (f : Frame Unit) → parse_text (print_frame f) ≡ some (fields f)
parse_text-print_frame f =
    rw
      (
        take_field-put_field f.id
            (put_field f.pattern_ (put_field f.payload (put_field f.error []))),
        take_field-put_field f.pattern_ (put_field f.payload (put_field f.error [])),
        take_field-put_field f.payload (put_field f.error []),
        take_field-put_field f.error [],
      )
      refl

decoded_all : (chunks : List (List ℕ)) → decoded tiny_wire tt chunks ≡ join chunks
decoded_all [] = refl
decoded_all (c ∷ cs) = ap (λ t. c ++ t) (decoded_all cs)

tiny_laws : WireLaws tiny_wire
tiny_laws = record {
  parse-stringify = parse_text-print_frame;
  stringify_line = λ f.
      put_field_line f.id (put_field f.pattern_ (put_field f.payload (put_field f.error [])))
      ∙ put_field_line f.pattern_ (put_field f.payload (put_field f.error []))
      ∙ put_field_line f.payload (put_field f.error [])
      ∙ put_field_line f.error [];
  stringify_blank = λ f. refl;
  byte_length_part = λ a b c. omega (arith, length-append a (b ++ c), length-append b c);
  decoded-utf8 = λ fs chunks sent. decoded_all chunks ∙ sent;
}

-- An id, a pattern and a value.
abbrev id_a : Text
id_a = b'a' ∷ []

abbrev sum_pattern : Text
sum_pattern = b's' ∷ []

abbrev value : Option (Value Unit)
value = some (text (b'v' ∷ []))

abbrev two_frames : List (Frame Unit)
two_frames = request_of id_a sum_pattern value ∷ request_of sum_pattern id_a none ∷ []

abbrev bytes : List ℕ
bytes = join (map (line_of tiny_wire) two_frames)

-- One chunk for each byte.
abbrev one_by_one : List (List ℕ)
one_by_one = map (λ b. b ∷ []) bytes

receive_all-line_of_example :
    ((receive_all tiny_wire (new_stream tiny_wire) one_by_one).overflow ≡ false)
    × (map parse_text (receive_all tiny_wire (new_stream tiny_wire) one_by_one).lines
        ≡ map (λ f. some (fields f)) two_frames)
    × ((receive_all tiny_wire (new_stream tiny_wire) one_by_one).stream.buffer ≡ [])
receive_all-line_of_example =
    receive_all-line_of tiny_wire tiny_laws two_frames one_by_one refl (omega arith)

-- A connected client that has sent one request.
abbrev joined : Client Unit Unit
joined = client_step tiny_wire connected (client_step tiny_wire connecting (new_client tiny_wire))

abbrev asking : Client Unit Unit
asking = client_step tiny_wire (sending id_a sum_pattern value) joined

asking-Reachable : Reachable tiny_wire asking
unfolding client_step get
asking-Reachable =
    steps (sending id_a sum_pattern value) (steps connected (steps connecting starts tt) tt) refl

requests_settled_once_example :
    times_settled 0 asking.settled + count 0 (values asking.pending_requests) ≡ 1
unfolding client_step send
requests_settled_once_example =
    requests_settled_once tiny_wire asking asking-Reachable 0 (omega arith)

close_settles_all_example :
    (times_settled 0 (client_step tiny_wire closing asking).settled ≡ 1)
    × (times_settled 0 (client_step tiny_wire socket_closed asking).settled ≡ 1)
unfolding client_step send
close_settles_all_example = close_settles_all tiny_wire asking asking-Reachable 0 (omega arith)

abbrev serving : TcpServer Unit Unit
serving = add_message_handler tiny_wire sum_pattern 7 (new_server tiny_wire)

request_round_trip_example :
    ((send tiny_wire id_a sum_pattern value joined).written
      ≡ line_of tiny_wire (request_of id_a sum_pattern value) ∷ [])
    × (handle_message_line tiny_wire serving (print_frame (request_of id_a sum_pattern value)) 3
        ≡ perform tiny_wire (asked 7 value 3 (some (text id_a))) serving)
    × ((answer_request tiny_wire 3 (some (text id_a)) (returned none) serving).effects
        ≡ written 3 (line_of tiny_wire (response_of id_a (returned none))) ∷ [])
    × ((handle_line tiny_wire
          (send tiny_wire id_a sum_pattern value joined)
          (print_frame (response_of id_a (returned none)))).settled
        ≡ (0, replied none) ∷ [])
unfolding client_step get put add_message_handler
request_round_trip_example =
    request_round_trip tiny_wire tiny_laws joined serving id_a sum_pattern value 3 7 (returned none)
      refl refl (λ e. ground arith) (λ e. ground arith) refl refl

-- A server that has sent a request to the socket 3.
abbrev waiting_server : TcpServer Unit Unit
waiting_server =
    send_message tiny_wire id_a sum_pattern value
      (handle_connection tiny_wire 3 (new_server tiny_wire))

-- The reply to the request, as it comes in after the close.
abbrev late_reply : LateEvent Unit
late_reply = data_comes 3 (line_of tiny_wire (response_of id_a (returned value)))

close_leaves_requests_example :
    ((late_run tiny_wire (late_reply ∷ socket_ends 3 ∷ []) (close tiny_wire waiting_server)).settled
      ≡ [])
    × (get
          (late_run tiny_wire
            (late_reply ∷ socket_ends 3 ∷ [])
            (close tiny_wire waiting_server)).timers
          0
        ≡ some id_a)
    × ((fire_timer tiny_wire 0
          (get
            (late_run tiny_wire
              (late_reply ∷ socket_ends 3 ∷ [])
              (close tiny_wire waiting_server)).timers
            0)
          (late_run tiny_wire
            (late_reply ∷ socket_ends 3 ∷ [])
            (close tiny_wire waiting_server))).settled
        ≡ (0, timed_out) ∷ [])
unfolding send_message handle_connection get put
close_leaves_requests_example =
    close_leaves_requests tiny_wire waiting_server 0 id_a (late_reply ∷ socket_ends 3 ∷ []) refl
