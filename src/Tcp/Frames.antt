-- ===== src/Tcp/Frames.antt =====
-- The framing of packages/microservices/src/transports/tcp.server.ts (the handler of "data") and
-- client/tcp.client.ts (handleData): what is decoded is appended to a buffer, and each line that
-- ends is taken out of it.
pub mod Chunks
use elysia_nest.Base.{
  ℕ, Bool, true, false, ◌||◌, not, List, [], ◌∷◌, ◌++◌, Text, filter, ltb, if◌then◌else◌,
}
use elysia_nest.Emitter.Pattern.{split}
use elysia_nest.Tcp.Wire.{Wire, newline}

abbrev pub max_buffer_size : ℕ
max_buffer_size = 1048576

-- The decoder and the buffer of a connection.
pub record Stream (D : Type 0) : Type 0 where
  pub decoder : D
  pub buffer : Text

-- What a chunk leads to: the lines to handle, and whether the socket is destroyed.
pub record Received (D : Type 0) : Type 0 where
  pub stream : Stream D
  pub lines : List Text
  pub overflow : Bool

-- `lines.pop() ?? ""` of a list that has a first entry: the others and the last one.
abbrev pub pop_last : Text → List Text → List Text × Text
pop_last first [] = ([], first)
pop_last first (next ∷ rest) = let (ls, last) = pop_last next rest in (first ∷ ls, last)

unfoldable pub take_lines : Text → List Text × Text
take_lines t = elim (split newline t) [ [] ↦ ([], []) | first ∷ rest ↦ pop_last first rest ]

module _ {J D : Type 0} (w : Wire J D) where
  unfoldable pub receive : Stream D → List ℕ → Received D
  receive s chunk =
      let (next, t) = w.decode s.decoder chunk in
      let filled = s.buffer ++ t in
      let (ended, rest) = take_lines filled in
      if ltb max_buffer_size (w.byte_length filled)
      then record { stream = record { decoder = next; buffer = [] }; lines = []; overflow = true }
      else record {
        stream = record { decoder = next; buffer = rest };
        lines = filter (λ line. not (w.is_blank line)) ended;
        overflow = false;
      }

  abbrev pub new_stream : Stream D
  new_stream = record { decoder = w.fresh; buffer = [] }

  -- The events "data" of a connection, in order.
  unfoldable pub receive_all : Stream D → List (List ℕ) → Received D
  receive_all s [] = record { stream = s; lines = []; overflow = false }
  receive_all s (c ∷ cs) =
      let first = receive s c in
      let others = receive_all first.stream cs in
      record {
        stream = others.stream;
        lines = first.lines ++ others.lines;
        overflow = first.overflow || others.overflow;
      }
