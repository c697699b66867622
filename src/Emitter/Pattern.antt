-- ===== src/Emitter/Pattern.antt =====
-- The wildcard patterns of packages/event-emitter/src/event-emitter.service.ts. A regular expression
-- is the sequence of atoms that its source denotes: an escaped text is its units, as the escaped
-- characters are all that have a meaning of their own outside a class.
pub mod Segments
use elysia_nest.Base.{
  ℕ, zero, suc, ◌-◌, length, leb, Bool, true, false, ◌&&◌, ◌||◌, not, List, [], ◌∷◌, ◌++◌, map,
  Text, text_beq, nat_beq, ◌==◌, nat_eq, text_eq, if◌then◌else◌,
}

pub data Atom : Type 0 where
  -- One code unit.
  unit : ℕ → Atom
  -- `.*`
  any_star : Atom
  -- `[^d]+`, for the escaped text d
  not_plus : Text → Atom

-- `String.split` by one unit: the first part and the others.
abbrev pub split_parts : ℕ → Text → Text × List Text
split_parts d [] = ([], [])
split_parts d (x ∷ t) =
    let (first, rest) = split_parts d t in if x == d then ([], first ∷ rest) else (x ∷ first, rest)

abbrev pub split : ℕ → Text → List Text
split d t = let (first, rest) = split_parts d t in first ∷ rest

abbrev pub starts_with : Text → Text → Bool
starts_with [] t = true
starts_with (c ∷ d) [] = false
starts_with (c ∷ d) (x ∷ t) = c == x && starts_with d t

-- The first part of a text and the others, after `n` units that belong to a delimiter.
abbrev pub text_parts : Text → ℕ → Text → Text × List Text
text_parts d n [] = ([], [])
text_parts d (suc n) (x ∷ t) = text_parts d n t
text_parts d zero (x ∷ t) =
    let here = starts_with d (x ∷ t) in
    let (first, rest) = text_parts d (if here then length d - 1 else 0) t in
    if here then ([], first ∷ rest) else (x ∷ first, rest)

-- `String.split` by a text: by the empty one, into the units.
abbrev pub split_text : Text → Text → List Text
split_text d t =
    if d == [] then map (λ x. x ∷ []) t else let (first, rest) = text_parts d 0 t in first ∷ rest

abbrev pub star : Text
star = b'*' ∷ []

abbrev pub double_star : Text
double_star = b'*' ∷ b'*' ∷ []

abbrev pub any_wildcard : List Text → Bool
any_wildcard [] = false
any_wildcard (seg ∷ segs) = seg == star || seg == double_star || any_wildcard segs

unfoldable pub is_wildcard_pattern : Text → Text → Bool
is_wildcard_pattern d pattern_ = any_wildcard (split_text d pattern_)

abbrev pub segment_atoms : Text → Text → List Atom
segment_atoms d seg =
    if seg == double_star
    then any_star ∷ []
    else (if seg == star then not_plus d ∷ [] else map unit seg)

-- `.join(escaped)`
abbrev pub join_atoms : Text → List Text → List Atom
join_atoms d [] = []
join_atoms d (seg ∷ []) = segment_atoms d seg
join_atoms d (seg ∷ next ∷ segs) = segment_atoms d seg ++ (map unit d ++ join_atoms d (next ∷ segs))

unfoldable pub compile_pattern : Text → Text → List Atom
compile_pattern d pattern_ = join_atoms d (split_text d pattern_)

-- What `.` does not match.
abbrev pub is_line_terminator : ℕ → Bool
is_line_terminator x = x == 10 || x == 13 || x == 0x2028 || x == 0x2029

-- `.*`, and then the rest of the expression.
abbrev pub any_run : (Text → Bool) → Text → Bool
any_run rest [] = rest []
any_run rest (x ∷ t) = rest (x ∷ t) || (not (is_line_terminator x) && any_run rest t)

-- Whether the class of an escaped text has a unit. The hyphen is not escaped: between two others it
-- makes a range. One whose ends are in the wrong order is empty here; RegExp refuses it.
abbrev pub class_has : Text → ℕ → Bool
class_has [] x = false
class_has (a ∷ []) x = a == x
class_has (a ∷ b ∷ []) x = a == x || b == x
class_has (a ∷ b ∷ c ∷ d) x =
    let after_range = class_has d x in
    let after_unit = class_has (b ∷ c ∷ d) x in
    if b == b'-' then (leb a x && leb x c) || after_range else a == x || after_unit

-- `[^d]+`, and then the rest of the expression.
abbrev pub not_run : Text → (Text → Bool) → Text → Bool
not_run d rest [] = false
not_run d rest (x ∷ t) = not (class_has d x) && (rest t || not_run d rest t)

-- `RegExp.test` for the expression between `^` and `$`.
abbrev pub matches : List Atom → Text → Bool
matches [] [] = true
matches [] (x ∷ t) = false
matches (unit c ∷ r) [] = false
matches (unit c ∷ r) (x ∷ t) = c == x && matches r t
matches (any_star ∷ r) t = any_run (matches r) t
matches (not_plus d ∷ r) t = not_run d (matches r) t
