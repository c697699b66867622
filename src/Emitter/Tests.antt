-- ===== src/Emitter/Tests.antt =====
-- Runs of the emitter, and the theorems on them.
use elysia_nest.Base.{
  ◌&&◌, ℕ, not, ◌≡◌, refl, true, false, some, List, [], ◌∷◌, Text, get, put, filter, text_eq,
}
use elysia_nest.Emitter.Pattern.{is_wildcard_pattern, compile_pattern, matches, split_text}
use elysia_nest.Emitter.Pattern.Segments.{segments_match, compile_pattern-matches}
use elysia_nest.Emitter.Registry.{
  Handlers, emit, named, HandlerRegistration, Options, Service, new_service, registration,
  add_registration, bucket, get_matching, merge_by_seq,
}
use elysia_nest.Emitter.Registry.Refines.{
  Represents, receives, Represents-new, Represents-add_registration, get_matching-Represents,
}
use elysia_nest.Emitter.Registry.Once.{Represents-emit}
use elysia_nest.Emitter.Registry.Removal.{removes, run, run_list, Represents-run}

-- "a.*", "a.b" and "a.b.c"; the delimiter is ".".
abbrev a_star : Text
a_star = b'a' ∷ b'.' ∷ b'*' ∷ []

abbrev a_b : Text
a_b = b'a' ∷ b'.' ∷ b'b' ∷ []

abbrev a_b_c : Text
a_b_c = b'a' ∷ b'.' ∷ b'b' ∷ b'.' ∷ b'c' ∷ []

star_takes_one : matches (compile_pattern (b'.' ∷ []) a_star) a_b ≡ true
unfolding compile_pattern
star_takes_one = refl

star_takes_only_one : matches (compile_pattern (b'.' ∷ []) a_star) a_b_c ≡ false
unfolding compile_pattern
star_takes_only_one = refl

-- "a::*" and "a::b:c", for the delimiter "::": the class leaves out each of its units.
two_units_leave_out :
    (matches
        (compile_pattern (b':' ∷ b':' ∷ []) (b'a' ∷ b':' ∷ b':' ∷ b'*' ∷ []))
        (b'a' ∷ b':' ∷ b':' ∷ b'b' ∷ b':' ∷ b'c' ∷ [])
      ≡ false)
    × (segments_match
          (split_text (b':' ∷ b':' ∷ []) (b'a' ∷ b':' ∷ b':' ∷ b'*' ∷ []))
          (split_text (b':' ∷ b':' ∷ []) (b'a' ∷ b':' ∷ b':' ∷ b'b' ∷ b':' ∷ b'c' ∷ []))
        ≡ true)
unfolding compile_pattern
two_units_leave_out = (refl, refl)

compile_pattern-matches_example :
    matches (compile_pattern (b'.' ∷ []) a_star) a_b
    ≡ segments_match (split_text (b'.' ∷ []) a_star) (split_text (b'.' ∷ []) a_b)
compile_pattern-matches_example = compile_pattern-matches b'.' a_star a_b (refl, (refl, tt))

abbrev wild_options : Options
wild_options = record { wildcard = true; delimiter = b'.' ∷ []; max_listeners = 10 }

-- Handler 1 listens to "a.*", and handler 2 once to "a.b".
abbrev first_on : Service
first_on = add_registration (new_service wild_options) (named a_star) 1 false

abbrev both_on : Service
both_on = add_registration first_on (named a_b) 2 true

abbrev both_registered : List HandlerRegistration
both_registered =
    registration (new_service wild_options) (named a_star) 1 false
    ∷ registration first_on (named a_b) 2 true
    ∷ []

both_on-Represents : Represents both_on both_registered
both_on-Represents = Represents-add_registration first_on _ (named a_b) 2 true (
    Represents-add_registration (new_service wild_options) [] (named a_star) 1 false
      (Represents-new wild_options))

-- The wildcard registration comes first, as it was made first.
both_match : get_matching both_on (named a_b) ≡ both_registered
unfolding add_registration bucket get_matching is_wildcard_pattern compile_pattern get put
    merge_by_seq
both_match = refl

get_matching-Represents_example :
    get_matching both_on (named a_b) ≡ filter (receives both_on.options (named a_b)) both_registered
get_matching-Represents_example =
    get_matching-Represents both_on both_registered (named a_b) both_on-Represents

Represents-run_example :
    Represents
      (run both_on (removes (named a_b) (some 2)))
      (run_list both_on.seq both_on.options both_registered (removes (named a_b) (some 2)))
Represents-run_example =
    Represents-run both_on both_registered (removes (named a_b) (some 2)) both_on-Represents

-- The handlers throw, and the one-time registration is taken out all the same.
abbrev quiet : Handlers
quiet h s = (s, true)

quiet_handlers : (h : ℕ) → (quiet h both_on).0 ≡ both_on
quiet_handlers h = refl

Represents-emit_example :
    Represents
      (emit quiet both_on (named a_b)).0
      (filter (λ r. not (r.once && receives both_on.options (named a_b) r)) both_registered)
unfolding add_registration is_wildcard_pattern
Represents-emit_example =
    Represents-emit quiet both_on both_registered (named a_b) quiet_handlers (refl, (refl, tt))
      both_on-Represents
