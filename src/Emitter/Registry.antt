-- ===== src/Emitter/Registry.antt =====
-- `EventEmitterService` of packages/event-emitter/src/event-emitter.service.ts. A handler is the
-- identity of a function; what the calls of handlers do to the service is an argument. The
-- sequence number of a registration is its identity as an object.
pub mod Merge
pub mod Refines
pub mod Removal
pub mod Emits
pub mod Once
use elysia_nest.Base.{
  ℕ, zero, suc, ◌+◌, Bool, true, false, ◌&&◌, ◌||◌, not, Option, none, some, List, [], ◌∷◌, ◌++◌,
  Map, get, put, delete, Text, text_beq, text_beq_iff, nat_beq, nat_beq_iff, ◌≡◌, ◌↔◌, arith,
  Equality, ◌==◌, nat_eq, text_eq, if◌then◌else◌, leb, length, filter, remove_first,
}
use elysia_nest.Emitter.Pattern.{Atom, is_wildcard_pattern, compile_pattern, matches}

pub data EventName : Type 0 where
  named : Text → EventName
  symbol : ℕ → EventName

abbrev pub name_beq : EventName → EventName → Bool
name_beq (named a) (named b) = text_beq a b
name_beq (symbol a) (symbol b) = nat_beq a b
name_beq _ _ = false

pub name_beq_iff : (a b : EventName) → (name_beq a b ≡ true) ↔ (a ≡ b)
name_beq_iff (named a) (named b) = ground (arith, text_beq_iff a b)
name_beq_iff (named a) (symbol b) = ground arith
name_beq_iff (symbol a) (named b) = ground arith
name_beq_iff (symbol a) (symbol b) = ground arith

instance abbrev pub name_eq : Equality EventName
name_eq = record { equal = name_beq; equal_iff = name_beq_iff }

pub record HandlerRegistration : Type 0 where
  pub pattern_ : EventName
  pub handler : ℕ
  pub once : Bool
  pub seq : ℕ
  pub regex : Option (List Atom)

pub record Options : Type 0 where
  pub wildcard : Bool
  pub delimiter : Text
  pub max_listeners : ℕ

pub record Service : Type 0 where
  pub options : Options
  pub exact : Map EventName (List HandlerRegistration)
  pub wildcards : List HandlerRegistration
  pub seq : ℕ

abbrev pub new_service : Options → Service
new_service o = record { options = o; exact = []; wildcards = []; seq = 0 }

-- `this.wildcard && typeof event === "string" && this.isWildcardPattern(event)`
abbrev pub is_wild : Options → EventName → Bool
is_wild o (named p) = o.wildcard && is_wildcard_pattern o.delimiter p
is_wild o (symbol n) = false

abbrev pub compiled : Options → EventName → Option (List Atom)
compiled o (named p) =
    if o.wildcard && is_wildcard_pattern o.delimiter p
    then some (compile_pattern o.delimiter p)
    else none
compiled o (symbol n) = none

abbrev pub or_nil : Option (List HandlerRegistration) → List HandlerRegistration
or_nil none = []
or_nil (some l) = l

-- `this.exact.get(event)`, with no bucket as an empty one.
unfoldable pub bucket : Service → EventName → List HandlerRegistration
bucket s e = or_nil (get s.exact e)

-- A bucket that becomes empty is deleted from the map.
unfoldable pub store_bucket : Service → EventName → List HandlerRegistration → Service
store_bucket s e [] = record s { exact = delete s.exact e }
store_bucket s e (r ∷ rs) = record s { exact = put s.exact e (r ∷ rs) }

abbrev pub registration : Service → EventName → ℕ → Bool → HandlerRegistration
registration s p h once = record {
  pattern_ = p;
  handler = h;
  once = once;
  seq = s.seq;
  regex = compiled s.options p;
}

-- `addRegistration`; the service after it.
unfoldable pub add_registration : Service → EventName → ℕ → Bool → Service
add_registration s p h once =
    let reg = registration s p h once in
    if is_wild s.options p
    then record s { wildcards = s.wildcards ++ reg ∷ []; seq = s.seq + 1 }
    else record s { exact = put s.exact p (bucket s p ++ reg ∷ []); seq = s.seq + 1 }

-- Whether `addRegistration` warns that a pattern has too many listeners.
unfoldable pub warns_too_many : Service → EventName → Bool
warns_too_many s (symbol n) = false
warns_too_many s (named p) = leb s.options.max_listeners (
    if is_wild s.options (named p)
    then length (filter (λ r. r.pattern_ == named p) s.wildcards)
    else length (bucket s (named p)))

abbrev pub on : Service → EventName → ℕ → Service
on s e h = add_registration s e h false

abbrev pub once : Service → EventName → ℕ → Service
once s e h = add_registration s e h true

-- `off(event, handler)`; with no handler, `off(event)`.
unfoldable pub off : Service → EventName → Option ℕ → Service
off s e none =
    if is_wild s.options e
    then record s { wildcards = filter (λ r. not (r.pattern_ == e)) s.wildcards }
    else record s { exact = delete s.exact e }
off s e (some h) =
    if is_wild s.options e
    then record s { wildcards = remove_first (λ r. r.pattern_ == e && r.handler == h) s.wildcards }
    else elim (get s.exact e) [
      | none ↦ s
      | some b ↦ store_bucket s e (remove_first (λ r. r.handler == h) b)
    ]

-- `removeAllListeners(event?)`
unfoldable pub remove_all_listeners : Service → Option EventName → Service
remove_all_listeners s none = record s { exact = []; wildcards = [] }
remove_all_listeners s (some e) = off s e none

-- `(reg.regex as RegExp).test(event)`
abbrev pub regex_test : Option (List Atom) → Text → Bool
regex_test none t = false
regex_test (some r) t = matches r t

-- The two `while` loops of `mergeBySeq`, on fuel above the number of entries.
unfoldable pub merge_by_seq :
    ℕ → List HandlerRegistration → List HandlerRegistration → List HandlerRegistration
merge_by_seq zero a b = []
merge_by_seq (suc fuel) [] b = b
merge_by_seq (suc fuel) (x ∷ a) [] = x ∷ a
merge_by_seq (suc fuel) (x ∷ a) (y ∷ b) =
    let first = x ∷ merge_by_seq fuel a (y ∷ b) in
    let second = y ∷ merge_by_seq fuel (x ∷ a) b in if leb x.seq y.seq then first else second

abbrev pub merged : List HandlerRegistration → List HandlerRegistration → List HandlerRegistration
merged [] wild = wild
merged (x ∷ b) [] = x ∷ b
merged (x ∷ b) (y ∷ wild) = merge_by_seq (length (x ∷ b) + length (y ∷ wild)) (x ∷ b) (y ∷ wild)

-- `getMatching`
unfoldable pub get_matching : Service → EventName → List HandlerRegistration
get_matching s (symbol n) = bucket s (symbol n)
get_matching s (named e) =
    if s.options.wildcard
    then merged (bucket s (named e))
        (filter (λ r. r.pattern_ == named e || regex_test r.regex e) s.wildcards)
    else bucket s (named e)

unfoldable pub listener_count : Service → EventName → ℕ
listener_count s e = length (get_matching s e)

abbrev pub remove_stored :
    Service → HandlerRegistration → Option (List HandlerRegistration) → Service
remove_stored s reg none = s
remove_stored s reg (some b) = store_bucket s reg.pattern_ (remove_first (λ q. q.seq == reg.seq) b)

abbrev pub remove_by : Service → HandlerRegistration → Option (List Atom) → Service
remove_by s reg (some r) = record s { wildcards = remove_first (λ q. q.seq == reg.seq) s.wildcards }
remove_by s reg none = remove_stored s reg (get s.exact reg.pattern_)

-- One step of `removeRegistrations`.
unfoldable pub remove_registration : Service → HandlerRegistration → Service
remove_registration s reg = remove_by s reg reg.regex

unfoldable pub remove_registrations : Service → List HandlerRegistration → Service
remove_registrations s [] = s
remove_registrations s (r ∷ rs) = remove_registrations (remove_registration s r) rs

-- A call of a handler: the service after it, and whether it threw or rejected.
abbrev pub Handlers : Type 0
Handlers = ℕ → Service → Service × Bool

-- The loop of `emit`: the handlers run in order, and what they throw is dropped.
unfoldable pub call_each : Handlers → List HandlerRegistration → Service → Service
call_each call [] s = s
call_each call (r ∷ rs) s = call_each call rs (call r.handler s).0

unfoldable pub emit : Handlers → Service → EventName → Service × Bool
emit call s e = elim (get_matching s e) [
  | [] ↦ (s, false)
  | r ∷ rs ↦
      (remove_registrations (call_each call (r ∷ rs) s) (filter (λ q. q.once) (r ∷ rs)), true)
]
