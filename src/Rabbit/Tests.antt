-- ===== src/Rabbit/Tests.antt =====
-- Keys and patterns, and the theorems on them.
use elysia_nest.Base.{◌≡◌, refl, true, false, [], ◌∷◌, Text}
use elysia_nest.Rabbit.Routing.{one, many, scan, matches_pattern, matches_routing_key}
use elysia_nest.Rabbit.Routing.Topics.{any_topic, topic_keys_accepted, plain_patterns_exact}

-- "a.b" and the patterns "a.*", "a.#" and "#.b".
abbrev a_b : Text
a_b = b'a' ∷ b'.' ∷ b'b' ∷ []

abbrev a_star : Text
a_star = b'a' ∷ b'.' ∷ b'*' ∷ []

abbrev a_hash : Text
a_hash = b'a' ∷ b'.' ∷ b'#' ∷ []

abbrev hash_b : Text
hash_b = b'#' ∷ b'.' ∷ b'b' ∷ []

-- A topic exchange does not route the key "a" by "#.b".
hash_in_front_accepts : matches_routing_key (b'a' ∷ []) (one hash_b) ≡ true
unfolding matches_routing_key matches_pattern scan
hash_in_front_accepts = refl

hash_in_front_topic : any_topic (b'a' ∷ []) (hash_b ∷ []) ≡ false
hash_in_front_topic = refl

topic_keys_accepted_example : matches_routing_key a_b (many (hash_b ∷ a_hash ∷ [])) ≡ true
topic_keys_accepted_example = topic_keys_accepted a_b (many (hash_b ∷ a_hash ∷ [])) refl

plain_patterns_exact_example : matches_routing_key a_b (one a_star) ≡ any_topic a_b (a_star ∷ [])
plain_patterns_exact_example = plain_patterns_exact a_b (one a_star) (((refl, (refl, tt))), tt)
