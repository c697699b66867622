-- ===== src/Scheduler/Cron.antt =====
-- isValidCronExpression of packages/scheduler/src/interfaces/cron.interface.ts.
use elysia_nest.Base.{
  ℕ, Bool, true, false, ◌&&◌, ◌||◌, not, List, [], ◌∷◌, length, nat_eq, text_eq, ◌==◌, Text, has,
  leb, if◌then◌else◌,
}

abbrev pub is_digit : ℕ → Bool
is_digit x = leb b'0' x && leb x b'9'

-- `[\d*,/\-?LW#]`
abbrev pub is_field_unit : ℕ → Bool
is_field_unit x = is_digit x || has (b'*' ∷ b',' ∷ b'/' ∷ b'-' ∷ b'?' ∷ b'L' ∷ b'W' ∷ b'#' ∷ []) x

-- `` [<>"'`;{}[\]()] ``
abbrev pub is_dangerous : ℕ → Bool
is_dangerous x = has (b'<' ∷ b'>' ∷ 34 ∷ 39 ∷ 96 ∷ 59 ∷ 123 ∷ 125 ∷ 91 ∷ 93 ∷ 40 ∷ 41 ∷ []) x

abbrev pub every_unit : (ℕ → Bool) → Text → Bool
every_unit p [] = true
every_unit p (x ∷ t) = p x && every_unit p t

abbrev pub some_unit : (ℕ → Bool) → Text → Bool
some_unit p [] = false
some_unit p (x ∷ t) = p x || some_unit p t

abbrev pub put_word : Text → List Text → List Text
put_word [] words = words
put_word (x ∷ w) words = (x ∷ w) ∷ words

-- What `\s` matches is a parameter.
module _ (is_space : ℕ → Bool) where
  -- The word that a text begins with, and the words after it.
  abbrev pub words_of : Text → Text × List Text
  words_of [] = ([], [])
  words_of (x ∷ t) =
      let (first, others) = words_of t in
      if is_space x then ([], put_word first others) else (x ∷ first, others)

  -- `.trim().split(/\s+/)`; of a blank text it has no segment in place of an empty one.
  abbrev pub segments : Text → List Text
  segments t = let (first, others) = words_of t in put_word first others

  abbrev pub is_valid_segment : Text → Bool
  is_valid_segment t = not (t == []) && every_unit is_field_unit t && not (some_unit is_dangerous t)

  abbrev pub every_segment : List Text → Bool
  every_segment [] = true
  every_segment (t ∷ ts) = is_valid_segment t && every_segment ts

  unfoldable pub is_valid_cron_expression : Text → Bool
  is_valid_cron_expression expression =
      not (expression == [])
      && leb (length expression) 100
      && (length (segments expression) == 5 || length (segments expression) == 6)
      && every_segment (segments expression)
