-- ===== src/Rabbit/Routing/Topics.antt =====
-- Routing keys against the rules of topic exchanges: `*` stands for one word, and `#` for any
-- number of words.
use mathlib.Core.Path.{ap₂}
use elysia_nest.Base.{
  ◌≡◌, ◌≢◌, inl, inr, refl, Bool, true, false, ◌||◌, ◌&&◌, List, [], ◌∷◌, length, Text, text_eq,
  text_beq_iff, nat_eq, ◌==◌, if◌then◌else◌, All, arith, Bool-cases, sym, ap, ◌∙◌,
}
use elysia_nest.Emitter.Pattern.{split}
use elysia_nest.Rabbit.Routing.{
  RoutingPattern, one, many, star, hash, Scan, at_hash, star_failed, passed, next_words, scan,
  accepts, matches_pattern, matches_any, matches_routing_key,
}

-- Some suffix of the words passes.
abbrev pub some_suffix : (List Text → Bool) → List Text → Bool
some_suffix test [] = test []
some_suffix test (k ∷ ks) = test (k ∷ ks) || some_suffix test ks

abbrev pub topic_word : Text → Text → Bool
topic_word p k = p == star || p == k

-- The words of a key against those of a binding.
abbrev pub topic_matches : List Text → List Text → Bool
topic_matches [] [] = true
topic_matches [] (k ∷ ks) = false
topic_matches (p ∷ ps) [] = if p == hash then some_suffix (topic_matches ps) [] else false
topic_matches (p ∷ ps) (k ∷ ks) =
    if p == hash
    then some_suffix (topic_matches ps) (k ∷ ks)
    else topic_word p k && topic_matches ps ks

topic_scan_accepted :
    (ps ks : List Text)
    → topic_matches ps ks ≡ true
    → accepts (scan ps ks) (length ks == length ps) ≡ true
unfolding scan
topic_scan_accepted [] [] h = refl
topic_scan_accepted [] (k ∷ ks) h = absurd (ground arith)
topic_scan_accepted (p ∷ ps) [] h = ground arith
topic_scan_accepted (p ∷ ps) (k ∷ ks) h = ground (arith, topic_scan_accepted ps ks)

abbrev pub HasNoHash : List Text → Type 0
HasNoHash = All (λ p. (p == hash) ≡ false)

scan-HasNoHash : (ps ks : List Text) → HasNoHash ps → scan ps ks ≢ at_hash
unfolding scan
scan-HasNoHash [] ks h e = ground arith
scan-HasNoHash (p ∷ ps) ks (a, h) e = scan-HasNoHash ps (next_words ks) h (ground arith)

not_accepted : (s : Scan) → s ≢ at_hash → accepts s false ≡ false
not_accepted at_hash h = absurd (h refl)
not_accepted star_failed h = refl
not_accepted passed h = refl

scan_is_topics :
    (ps ks : List Text)
    → HasNoHash ps
    → accepts (scan ps ks) (length ks == length ps) ≡ topic_matches ps ks
unfolding scan
scan_is_topics [] [] h = refl
scan_is_topics [] (k ∷ ks) h = ground arith
scan_is_topics (p ∷ ps) [] (a, h) =
    ground (arith, not_accepted (scan ps []) (scan-HasNoHash ps [] h))
scan_is_topics (p ∷ ps) (k ∷ ks) (a, h) = ground (arith, scan_is_topics ps ks h)

topic_self : (ps : List Text) → HasNoHash ps → topic_matches ps ps ≡ true
topic_self [] h = refl
topic_self (p ∷ ps) (a, h) = ground (arith, topic_self ps h, text_beq_iff p p)

topic_accepted :
    (key p : Text)
    → topic_matches (split b'.' p) (split b'.' key) ≡ true
    → matches_pattern key p ≡ true
unfolding matches_pattern
topic_accepted key p h = ground (arith, topic_scan_accepted (split b'.' p) (split b'.' key) h)

plain_exact :
    (key p : Text)
    → HasNoHash (split b'.' p)
    → matches_pattern key p ≡ topic_matches (split b'.' p) (split b'.' key)
unfolding matches_pattern
plain_exact key p h = elim (Bool-cases (key == p)) [
  | inl same ↦
      let self : topic_matches (split b'.' p) (split b'.' key) ≡ true =
        ap (λ (k : Text). topic_matches (split b'.' p) (split b'.' k)) ((text_beq_iff key p).0 same)
        ∙ topic_self (split b'.' p) h in
      rw same (sym self)
  | inr other ↦ rw other (scan_is_topics (split b'.' p) (split b'.' key) h)
]

abbrev pub patterns_of : RoutingPattern → List Text
patterns_of RoutingPattern.undefined = []
patterns_of (one p) = p ∷ []
patterns_of (many ps) = ps

abbrev pub any_topic : Text → List Text → Bool
any_topic key [] = false
any_topic key (p ∷ ps) = topic_matches (split b'.' p) (split b'.' key) || any_topic key ps

any_accepted : (key : Text) (ps : List Text) → any_topic key ps ≡ true → matches_any key ps ≡ true
any_accepted key [] h = absurd (ground arith)
any_accepted key (p ∷ ps) h = ground (arith, topic_accepted key p, any_accepted key ps)

any_exact :
    (key : Text) (ps : List Text)
    → All (λ p. HasNoHash (split b'.' p)) ps
    → matches_any key ps ≡ any_topic key ps
any_exact key [] h = refl
any_exact key (p ∷ ps) (a, h) = ap₂ (λ x y. x || y) (plain_exact key p a) (any_exact key ps h)

-- A key that a topic exchange would route by one of the patterns is never rejected.
pub topic_keys_accepted :
    (key : Text) (r : RoutingPattern)
    → any_topic key (patterns_of r) ≡ true
    → matches_routing_key key r ≡ true
unfolding matches_routing_key
topic_keys_accepted key RoutingPattern.undefined h = absurd (ground arith)
topic_keys_accepted key (one p) h = any_accepted key (p ∷ []) h
topic_keys_accepted key (many ps) h = any_accepted key ps h

-- For patterns without the word `#`, exactly the keys that a topic exchange would route by one of
-- them match.
pub plain_patterns_exact :
    (key : Text) (r : RoutingPattern)
    → All (λ p. HasNoHash (split b'.' p)) (patterns_of r)
    → matches_routing_key key r ≡ any_topic key (patterns_of r)
unfolding matches_routing_key
plain_patterns_exact key RoutingPattern.undefined h = refl
plain_patterns_exact key (one p) h = any_exact key (p ∷ []) h
plain_patterns_exact key (many ps) h = any_exact key ps h
