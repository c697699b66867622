-- ===== src/Tcp/Wire.antt =====
-- What both ends of packages/microservices/src/transports/tcp.server.ts and client/tcp.client.ts
-- use of JavaScript and Node: JSON, `String.trim`, `Buffer.byteLength` and `StringDecoder`.
use elysia_nest.Base.{
  ℕ, ◌≤◌, ◌≡◌, Bool, false, not, Option, none, some, List, [], ◌∷◌, ◌++◌, map, Text, text_eq, ◌==◌,
  has, nat_eq,
}

-- A value of JSON: a string, or one of the others.
pub data Value (J : Type 0) : Type 0 where
  text : Text → Value J
  other : J → Value J

-- The properties that the code reads of an object, with `none` for `undefined`. A value that is
-- neither an object nor null has none of them.
pub record Frame (J : Type 0) : Type 0 where
  pub id : Option (Value J)
  pub pattern_ : Option (Value J)
  pub payload : Option (Value J)
  pub error : Option (Value J)

pub data Parsed (J : Type 0) : Type 0 where
  null_value : Parsed J
  fields : Frame J → Parsed J

-- The values of J other than strings, and the states of a decoder D.
pub record Wire (J D : Type 0) : Type 0 where
  -- `Boolean(j)`
  pub truthy_other : J → Bool
  -- `JSON.parse`, with `none` where it throws
  pub parse : Text → Option (Parsed J)
  -- `JSON.stringify`
  pub stringify : Frame J → Text
  -- `!line.trim()`
  pub is_blank : Text → Bool
  -- `Buffer.byteLength`
  pub byte_length : Text → ℕ
  -- `new StringDecoder("utf8")` and its `write`
  pub fresh : D
  pub decode : D → List ℕ → D × Text
  -- `Buffer.from`
  pub utf8 : Text → List ℕ

abbrev pub newline : ℕ
newline = 10

abbrev pub join {ℓ} : {A : Type ℓ} → List (List A) → List A
join [] = []
join (x ∷ xs) = x ++ join xs

module _ {J D : Type 0} (w : Wire J D) where
  -- `Boolean(v)`
  abbrev pub truthy : Option (Value J) → Bool
  truthy none = false
  truthy (some (text t)) = not (t == [])
  truthy (some (other j)) = w.truthy_other j

  -- `JSON.stringify(message) + "\n"`
  abbrev pub line_of : Frame J → Text
  line_of f = w.stringify f ++ newline ∷ []

  -- What a decoder gives for a sequence of chunks.
  abbrev pub decoded : D → List (List ℕ) → Text
  decoded d [] = []
  decoded d (c ∷ cs) = (w.decode d c).1 ++ decoded (w.decode d c).0 cs

  -- The documented behaviour of the above: a string in JSON has neither line breaks nor the form of
  -- a blank line, a part of a text has no more bytes than the text, and a decoder gives back a text
  -- from its encoding, however it is cut.
  pub record WireLaws : Type 0 where
    pub parse-stringify : (f : Frame J) → w.parse (w.stringify f) ≡ some (fields f)
    pub stringify_line : (f : Frame J) → has (w.stringify f) newline ≡ false
    pub stringify_blank : (f : Frame J) → w.is_blank (w.stringify f) ≡ false
    pub byte_length_part : (a b c : Text) → w.byte_length b ≤ w.byte_length (a ++ (b ++ c))
    pub decoded-utf8 :
        (fs : List (Frame J)) (chunks : List (List ℕ))
        → join chunks ≡ w.utf8 (join (map line_of fs))
        → decoded w.fresh chunks ≡ join (map line_of fs)
