-- ===== src/Emitter/Pattern/Segments.antt =====
-- What a compiled pattern matches, segment by segment.
use mathlib.Core.List.{append-nil}
use elysia_nest.Base.{
  sym, ℕ, ◌≡◌, refl, inl, inr, Bool, true, false, ◌&&◌, not, List, [], ◌∷◌, ◌++◌, map, arith, Text,
  nat_beq_iff, ◌==◌, nat_eq, text_eq, if◌then◌else◌, Bool-cases, has, All,
}
use elysia_nest.Emitter.Pattern.{
  Atom, unit, text_parts, split_text, split_parts, split, star, double_star, segment_atoms,
  join_atoms, compile_pattern, not_run, matches,
}

-- `*` takes any segment that is not empty, and another segment itself.
abbrev pub segment_matches : Text → Text → Bool
segment_matches p e = if p == star then not (e == []) else p == e

abbrev pub segments_match : List Text → List Text → Bool
segments_match [] [] = true
segments_match [] (e ∷ es) = false
segments_match (p ∷ ps) [] = false
segments_match (p ∷ ps) (e ∷ es) = segment_matches p e && segments_match ps es

-- A delimiter of one unit.
text_parts_one : (d : ℕ) (t : Text) → text_parts (d ∷ []) 0 t ≡ split_parts d t
text_parts_one d [] = refl
text_parts_one d (x ∷ t) = elim (Bool-cases (d == x)) [
  | inl e ↦
      let e' : (x == d) ≡ true = ground (arith, e, nat_beq_iff d x, nat_beq_iff x d) in
      rw (e, e', text_parts_one d t) refl
  | inr e ↦
      let e' : (x == d) ≡ false = ground (arith, e, nat_beq_iff d x, nat_beq_iff x d) in
      rw (e, e', text_parts_one d t) refl
]

-- A segment without the delimiter, other than `**`.
abbrev pub IsPlainSegment : ℕ → Text → Type 0
IsPlainSegment d p = (has p d ≡ false) × ((p == double_star) ≡ false)

abbrev tail_atoms : ℕ → List Text → List Atom
tail_atoms d [] = []
tail_atoms d (q ∷ qs) = unit d ∷ join_atoms (d ∷ []) (q ∷ qs)

module _ (d : ℕ) (ps : List Text)
    (rest_matches : (t : Text)
      → matches (tail_atoms d ps) t
        ≡ ((split_parts d t).0 == [] && segments_match ps (split_parts d t).1)) where
  literal_matches :
      (p t : Text)
      → has p d ≡ false
      → matches (map unit p ++ tail_atoms d ps) t
        ≡ (p == (split_parts d t).0 && segments_match ps (split_parts d t).1)
  literal_matches [] t h = ground (arith, rest_matches t)
  literal_matches (c ∷ p) [] h = refl
  literal_matches (c ∷ p) (x ∷ t) h =
      ground (arith, literal_matches p t, nat_beq_iff c x, nat_beq_iff x d, nat_beq_iff c d)

  star_matches :
      (t : Text)
      → not_run (d ∷ []) (matches (tail_atoms d ps)) t
        ≡ (not ((split_parts d t).0 == []) && segments_match ps (split_parts d t).1)
  star_matches [] = refl
  star_matches (x ∷ t) = ground (arith, rest_matches t, star_matches t)

segment_join :
    (d : ℕ) (p : Text) (ps : List Text)
    → join_atoms (d ∷ []) (p ∷ ps) ≡ segment_atoms (d ∷ []) p ++ tail_atoms d ps
segment_join d p [] = sym (append-nil (segment_atoms (d ∷ []) p))
segment_join d p (q ∷ qs) = refl

-- One segment, over the rest of the pattern.
segment_step :
    (d : ℕ) (ps : List Text) (p : Text)
    → IsPlainSegment d p
    → ((t : Text)
        → matches (tail_atoms d ps) t
          ≡ ((split_parts d t).0 == [] && segments_match ps (split_parts d t).1))
    → (t : Text) → matches (join_atoms (d ∷ []) (p ∷ ps)) t ≡ segments_match (p ∷ ps) (split d t)
segment_step d ps p (clean, single) rest t =
    rw (segment_join d p ps) (elim (Bool-cases (p == star)) [
      | inl is_star ↦ ground (arith, star_matches d ps rest t)
      | inr literal ↦ ground (arith, literal_matches d ps rest p t clean)
    ])

tail_matches :
    (d : ℕ) (ps : List Text)
    → All (IsPlainSegment d) ps
    → (t : Text)
    → matches (tail_atoms d ps) t
      ≡ ((split_parts d t).0 == [] && segments_match ps (split_parts d t).1)
tail_matches d [] h [] = refl
tail_matches d [] h (x ∷ t) = ground arith
tail_matches d (q ∷ qs) h [] = refl
tail_matches d (q ∷ qs) (here, later) (x ∷ t) =
    ground (
      arith,
      segment_step d qs q here (tail_matches d qs later) t,
      nat_beq_iff d x,
      nat_beq_iff x d,
    )

split_is_clean :
    (d : ℕ) (t : Text)
    → (has (split_parts d t).0 d ≡ false) × All (λ p. has p d ≡ false) (split_parts d t).1
split_is_clean d [] = (refl, tt)
split_is_clean d (x ∷ t) = ground (arith, split_is_clean d t)

plain_segments :
    (d : ℕ) (ps : List Text)
    → All (λ p. has p d ≡ false) ps
    → All (λ p. (p == double_star) ≡ false) ps
    → All (IsPlainSegment d) ps
plain_segments d [] h k = tt
plain_segments d (p ∷ ps) (a, h) (b, k) = ((a, b), plain_segments d ps h k)

-- For a delimiter of one code unit, a pattern that has no segment `**` matches an event exactly
-- where the two have equally many segments, each `*` stands for a segment that is not empty, and the
-- other segments are equal.
pub compile_pattern-matches :
    (d : ℕ) (pattern_ event : Text)
    → All (λ p. (p == double_star) ≡ false) (split_text (d ∷ []) pattern_)
    → matches (compile_pattern (d ∷ []) pattern_) event
      ≡ segments_match (split_text (d ∷ []) pattern_) (split_text (d ∷ []) event)
unfolding compile_pattern
compile_pattern-matches d pattern_ event =
    rw (text_parts_one d pattern_, text_parts_one d event)
      (λ (first, later).
        let (clean, cleans) = split_is_clean d pattern_ in
        segment_step d (split_parts d pattern_).1 (split_parts d pattern_).0 (clean, first)
          (tail_matches d (split_parts d pattern_).1
            (plain_segments d (split_parts d pattern_).1 cleans later))
          event)
