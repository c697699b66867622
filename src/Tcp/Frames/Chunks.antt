-- ===== src/Tcp/Frames/Chunks.antt =====
-- The lines that a connection of the TCP transport takes out of its stream do not depend on how
-- the stream is cut into chunks.
use mathlib.Core.Path.{ap₂}
use mathlib.Core.List.{append_assoc, append-nil}
use elysia_nest.Base.{
  ℕ, some, ◌≤◌, ◌≡◌, refl, sym, ap, ◌∙◌, subst, Bool, false, not, List, [], ◌∷◌, ◌++◌, map, Text,
  filter, filter-append, ltb, if◌then◌else◌, Bool-cases, nat_beq_iff, arith, has, nat_eq, ◌==◌, inl,
  inr,
}
use elysia_nest.Emitter.Pattern.{split_parts}
use elysia_nest.Tcp.Wire.{Wire, WireLaws, Frame, newline, join, line_of, decoded, fields}
use elysia_nest.Tcp.Frames.{
  Stream, new_stream, Received, max_buffer_size, pop_last, take_lines, receive, receive_all,
}

-- A first unit before the lines of a text.
abbrev put_unit : ℕ → List Text × Text → List Text × Text
put_unit x ([], last) = ([], x ∷ last)
put_unit x (l ∷ ls, last) = ((x ∷ l) ∷ ls, last)

pop_last-unit :
    (x : ℕ) (first : Text) (rest : List Text)
    → pop_last (x ∷ first) rest ≡ put_unit x (pop_last first rest)
pop_last-unit x first [] = refl
pop_last-unit x first (next ∷ rest) = refl

take_lines_step :
    (x : ℕ) (t : Text)
    → take_lines (x ∷ t) ≡ (
        if x == newline
        then ([] ∷ (take_lines t).0, (take_lines t).1)
        else put_unit x (take_lines t))
unfolding take_lines
take_lines_step x t = elim (Bool-cases (x == newline)) [
  | inl e ↦ rw e refl
  | inr e ↦ rw e (pop_last-unit x (split_parts newline t).0 (split_parts newline t).1)
]

-- The lines of a text that continues what was taken before.
abbrev continue_with : Text → List Text × Text → List Text × Text
continue_with b (ls, last) = (ls ++ (take_lines (last ++ b)).0, (take_lines (last ++ b)).1)

continue_unit :
    (x : ℕ) (b : Text) (p : List Text × Text)
    → (x == newline) ≡ false
    → put_unit x (continue_with b p) ≡ continue_with b (put_unit x p)
continue_unit x b ([], last) h = rw (take_lines_step x (last ++ b), h) refl
continue_unit x b (l ∷ ls, last) h = refl

-- Appended text changes the last line alone.
take_lines-append : (a b : Text) → take_lines (a ++ b) ≡ continue_with b (take_lines a)
unfolding take_lines
take_lines-append [] b = refl
take_lines-append (x ∷ a) b = elim (Bool-cases (x == newline)) [
  | inl e ↦ rw (take_lines_step x (a ++ b), take_lines_step x a, e, take_lines-append a b) refl
  | inr e ↦
      rw (take_lines_step x (a ++ b), take_lines_step x a, e, take_lines-append a b)
        (continue_unit x b (take_lines a) e)
]

take_lines_open : (t : Text) → has t newline ≡ false → take_lines t ≡ ([], t)
unfolding take_lines
take_lines_open [] h = refl
take_lines_open (x ∷ t) h = elim (Bool-cases (x == newline)) [
  | inl e ↦ absurd (ground arith)
  | inr e ↦ rw (take_lines_step x t, e, take_lines_open t (ground arith)) refl
]

put_unit_open :
    (x : ℕ) (p : List Text × Text)
    → (x == newline) ≡ false
    → has p.1 newline ≡ false
    → has (put_unit x p).1 newline ≡ false
put_unit_open x ([], last) h k = ground arith
put_unit_open x (l ∷ ls, last) h k = k

take_lines_rest : (t : Text) → has (take_lines t).1 newline ≡ false
unfolding take_lines
take_lines_rest [] = refl
take_lines_rest (x ∷ t) = elim (Bool-cases (x == newline)) [
  | inl e ↦ rw (take_lines_step x t, e) (take_lines_rest t)
  | inr e ↦ rw (take_lines_step x t, e) (put_unit_open x (take_lines t) e (take_lines_rest t))
]

take_lines_line :
    (l t : Text)
    → has l newline ≡ false
    → take_lines (l ++ newline ∷ t) ≡ (l ∷ (take_lines t).0, (take_lines t).1)
unfolding take_lines
take_lines_line [] t h = refl
take_lines_line (x ∷ l) t h = elim (Bool-cases (x == newline)) [
  | inl e ↦ absurd (ground arith)
  | inr e ↦ rw (take_lines_step x (l ++ newline ∷ t), e, take_lines_line l t (ground arith)) refl
]

-- Lines with their line breaks.
abbrev ended : List Text → Text
ended [] = []
ended (l ∷ ls) = l ++ newline ∷ ended ls

ended-put_unit :
    (x : ℕ) (p : List Text × Text)
    → ended (put_unit x p).0 ++ (put_unit x p).1 ≡ x ∷ (ended p.0 ++ p.1)
ended-put_unit x ([], last) = refl
ended-put_unit x (l ∷ ls, last) = refl

-- Nothing of the text is lost.
ended-take_lines : (t : Text) → ended (take_lines t).0 ++ (take_lines t).1 ≡ t
unfolding take_lines
ended-take_lines [] = refl
ended-take_lines (x ∷ t) = elim (Bool-cases (x == newline)) [
  | inl e ↦
      rw (take_lines_step x t, e) (ap₂ ◌∷◌ (sym ((nat_beq_iff x newline).0 e)) (ended-take_lines t))
  | inr e ↦
      rw (take_lines_step x t, e)
        (ended-put_unit x (take_lines t) ∙ ap (λ u. x ∷ u) (ended-take_lines t))
]

module _ {J D : Type 0} (w : Wire J D) where
  abbrev pub not_blank : Text → Bool
  not_blank line = not (w.is_blank line)

  receive_fits :
      (s : Stream D) (c : List ℕ)
      → (receive w s c).overflow ≡ false
      → receive w s c ≡ record {
        stream = record {
          decoder = (w.decode s.decoder c).0;
          buffer = (take_lines (s.buffer ++ (w.decode s.decoder c).1)).1;
        };
        lines = filter not_blank (take_lines (s.buffer ++ (w.decode s.decoder c).1)).0;
        overflow = false;
      }
  unfolding receive
  receive_fits s c h =
      elim (Bool-cases
        (ltb max_buffer_size (w.byte_length (s.buffer ++ (w.decode s.decoder c).1)))) [
          | inl e ↦ ground arith
          | inr e ↦ rw e refl
        ]

  -- What a connection takes out of its stream, once the stream is known as a whole.
  abbrev Takes : Stream D → Received D → Text → Type 0
  Takes s r t =
      (r.lines ≡ filter not_blank (take_lines (s.buffer ++ t)).0)
      × (r.stream.buffer ≡ (take_lines (s.buffer ++ t)).1)

  Takes-receive :
      (s : Stream D) (c : List ℕ) (r : Received D) (t : Text)
      → (receive w s c).overflow ≡ false
      → Takes (receive w s c).stream r t
      → Takes s
          (record r { lines = (receive w s c).lines ++ r.lines })
          ((w.decode s.decoder c).1 ++ t)
  Takes-receive s c r t fits h = rw (← append_assoc s.buffer (w.decode s.decoder c).1 t) (
      rw (take_lines-append (s.buffer ++ (w.decode s.decoder c).1) t) (
        let e = receive_fits s c fits in
        let (same_lines, same_rest) = subst (λ q. Takes q.stream r t) e h in
        (ap₂ ◌++◌ (ap (λ q. q.lines) e) same_lines ∙ sym (filter-append not_blank _ _), same_rest)))

  -- However the stream is cut into chunks: as long as no chunk overflows the buffer, the lines that
  -- are handled are those that end in the buffer followed by what the chunks decode to, the blank
  -- ones left out, and the buffer keeps the text after the last of them.
  receive_all_lines :
      (s : Stream D) (cs : List (List ℕ))
      → has s.buffer newline ≡ false
      → (receive_all w s cs).overflow ≡ false
      → Takes s (receive_all w s cs) (decoded w s.decoder cs)
  unfolding receive_all
  receive_all_lines s [] h fits = rw (append-nil s.buffer, take_lines_open s.buffer h) (refl, refl)
  receive_all_lines s (c ∷ cs) h fits =
      let e = receive_fits s c (ground arith) in
      let s' = (receive w s c).stream in
      Takes-receive s c (receive_all w s' cs) _ (ground arith) (
        subst (λ d. Takes s' (receive_all w s' cs) (decoded w d cs)) (ap (λ q. q.stream.decoder) e)
          (receive_all_lines s' cs
            (subst (λ q. has q.stream.buffer newline ≡ false) (sym e) (take_lines_rest _))
            (ground arith)))

  module _ (laws : WireLaws w) where
    receive_within :
        (s : Stream D) (c : List ℕ)
        → w.byte_length (s.buffer ++ (w.decode s.decoder c).1) ≤ max_buffer_size
        → (receive w s c).overflow ≡ false
    unfolding receive
    receive_within s c h = ground arith

    -- The buffer is a part of the stream.
    receive_all_fits :
        (s : Stream D) (cs : List (List ℕ))
        → w.byte_length (s.buffer ++ decoded w s.decoder cs) ≤ max_buffer_size
        → (receive_all w s cs).overflow ≡ false
    unfolding receive_all
    receive_all_fits s [] h = refl
    receive_all_fits s (c ∷ cs) h =
        let t = s.buffer ++ (w.decode s.decoder c).1 in
        let more = decoded w (w.decode s.decoder c).0 cs in
        let first : (receive w s c).overflow ≡ false = receive_within s c (
          ground (
            arith,
            laws.byte_length_part [] t more,
            append_assoc s.buffer (w.decode s.decoder c).1 more,
          )) in
        let whole = s.buffer ++ (decoded w s.decoder (c ∷ cs)) in
        let e = receive_fits s c first in
        let split_here : ended (take_lines t).0 ++ ((take_lines t).1 ++ more ++ []) ≡ whole =
          ap (λ u. ended (take_lines t).0 ++ u) (append-nil _)
          ∙ sym (append_assoc (ended (take_lines t).0) (take_lines t).1 more)
          ∙ ap (λ u. u ++ more) (ended-take_lines t)
          ∙ append_assoc s.buffer (w.decode s.decoder c).1 more in
        rw first (
          receive_all_fits (receive w s c).stream cs (
            rw e (
              ground (
                arith,
                laws.byte_length_part (ended (take_lines t).0) ((take_lines t).1 ++ more) [],
                split_here,
              ))))

    parse_all :
        (fs : List (Frame J)) → map w.parse (map w.stringify fs) ≡ map (λ f. some (fields f)) fs
    parse_all [] = refl
    parse_all (f ∷ fs) = ap₂ ◌∷◌ (laws.parse-stringify f) (parse_all fs)

    take_lines-join :
        (fs : List (Frame J)) → take_lines (join (map (line_of w) fs)) ≡ (map w.stringify fs, [])
    take_lines-join [] = take_lines_open [] refl
    take_lines-join (f ∷ fs) =
        rw (append_assoc (w.stringify f) (newline ∷ []) (join (map (line_of w) fs))) (
          rw
            (
              take_lines_line (w.stringify f) (join (map (line_of w) fs)) (laws.stringify_line f),
              take_lines-join fs,
            )
            refl)

    not_blank-stringify :
        (fs : List (Frame J)) → filter not_blank (map w.stringify fs) ≡ map w.stringify fs
    not_blank-stringify [] = refl
    not_blank-stringify (f ∷ fs) = ground (arith, laws.stringify_blank f, not_blank-stringify fs)

    -- On a new connection, frames that are written one after the other and have at most 1048576
    -- bytes together come out of the other end as the same frames in the same order, however the
    -- bytes are cut into chunks: the socket is not destroyed, the lines to handle are those of the
    -- frames, each parses to its frame, and the buffer is empty.
    pub receive_all-line_of :
        (fs : List (Frame J)) (chunks : List (List ℕ))
        → join chunks ≡ w.utf8 (join (map (line_of w) fs))
        → w.byte_length (join (map (line_of w) fs)) ≤ max_buffer_size
        → ((receive_all w (new_stream w) chunks).overflow ≡ false)
          × (map w.parse (receive_all w (new_stream w) chunks).lines
              ≡ map (λ f. some (fields f)) fs)
          × ((receive_all w (new_stream w) chunks).stream.buffer ≡ [])
    receive_all-line_of fs chunks sent small =
        let same = laws.decoded-utf8 fs chunks sent in
        let fits = receive_all_fits (new_stream w) chunks (rw same small) in
        let takes = receive_all_lines (new_stream w) chunks refl fits in
        (
          fits,
          ap (map w.parse) (
                takes.0
                ∙ ap (λ t. filter not_blank (take_lines t).0) same
                ∙ ap (λ p. filter not_blank p.0) (take_lines-join fs)
                ∙ not_blank-stringify fs)
              ∙ parse_all fs,
          takes.1 ∙ ap (λ t. (take_lines t).1) same ∙ ap (λ p. p.1) (take_lines-join fs),
        )
