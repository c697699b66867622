-- ===== src/Rabbit/Routing.antt =====
-- `matchesRoutingKey` of packages/rabbitmq/src/amqp/utils.ts.
pub mod Topics
use elysia_nest.Base.{
  ℕ, Bool, true, false, ◌||◌, List, [], ◌∷◌, length, Text, text_eq, nat_eq, ◌==◌, if◌then◌else◌,
}
use elysia_nest.Emitter.Pattern.{split}

-- `string[] | string | undefined`
pub data RoutingPattern : Type 0 where
  undefined : RoutingPattern
  one : Text → RoutingPattern
  many : List Text → RoutingPattern

abbrev pub star : Text
star = b'*' ∷ []

abbrev pub hash : Text
hash = b'#' ∷ []

-- How the loop over the words of a pattern ends: at a `#`, at a word that differs, or behind them.
pub data Scan : Type 0 where
  at_hash star_failed passed : Scan

-- `splitPattern[i] === splitKey[i]`, where the key may have ended.
abbrev pub same_word : Text → List Text → Bool
same_word p [] = false
same_word p (k ∷ ks) = p == k

abbrev pub next_words : List Text → List Text
next_words [] = []
next_words (k ∷ ks) = ks

unfoldable pub scan : List Text → List Text → Scan
scan [] ks = passed
scan (p ∷ ps) ks =
    let rest = scan ps (next_words ks) in
    if p == hash then at_hash else (if p == star || same_word p ks then rest else star_failed)

abbrev pub accepts : Scan → Bool → Bool
accepts at_hash same_length = true
accepts star_failed same_length = false
accepts passed same_length = same_length

-- One round of the loop over the patterns.
unfoldable pub matches_pattern : Text → Text → Bool
unfolding scan
matches_pattern key p =
    key == p
    || accepts (scan (split b'.' p) (split b'.' key))
        (length (split b'.' key) == length (split b'.' p))

abbrev pub matches_any : Text → List Text → Bool
matches_any key [] = false
matches_any key (p ∷ ps) = matches_pattern key p || matches_any key ps

unfoldable pub matches_routing_key : Text → RoutingPattern → Bool
unfolding matches_pattern
matches_routing_key key undefined = false
matches_routing_key key (one p) = matches_any key (p ∷ [])
matches_routing_key key (many ps) = matches_any key ps
