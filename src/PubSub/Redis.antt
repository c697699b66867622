-- ===== src/PubSub/Redis.antt =====
-- `RedisPubSub` of packages/graphql-pubsub/src/redis-pubsub.ts. A handler is the identity of a
-- function. `subscribe` awaits the Redis command: the model splits it there, into the part that
-- runs at the call and the continuation that runs when the promise of the command settles. The
-- continuations of one promise run one after another, in the order in which they began to wait.
pub mod Coherent
pub mod Removal
pub mod Resume
pub mod Subscribe
pub mod Reachable
use elysia_nest.Base.{
  ℕ, ◌+◌, Bool, true, false, Option, none, some, List, [], ◌∷◌, ◌++◌, Map, get, put, delete, Text,
  text_eq, nat_eq, ◌==◌, if◌then◌else◌, length, remove_first,
}

pub record SubscriptionEvent : Type 0 where
  pub id : ℕ
  pub trigger : Text
  pub handler : ℕ
  pub is_pattern : Bool

-- What the client sends on the connection for subscriptions.
pub data Command : Type 0 where
  subscribes psubscribes unsubscribes punsubscribes : Text → Command

-- A call of `subscribe` that awaits the promise number `promise`; `issuer` says that it made the
-- promise.
pub record Waiter : Type 0 where
  pub promise : ℕ
  pub id : ℕ
  pub trigger : Text
  pub issuer : Bool

-- `next_promise` numbers the promises of `performSubscribe`.
pub record RedisPubSub : Type 0 where
  pub subscription_map : Map ℕ SubscriptionEvent
  pub subs_refs_map : Map Text (List ℕ)
  pub pending_subscribes : Map Text ℕ
  pub current_subscription_id : ℕ
  pub waiters : List Waiter
  pub next_promise : ℕ
  pub commands : List Command

abbrev pub new_pubsub : RedisPubSub
new_pubsub = record {
  subscription_map = [];
  subs_refs_map = [];
  pending_subscribes = [];
  current_subscription_id = 0;
  waiters = [];
  next_promise = 0;
  commands = [];
}

abbrev pub refs_or_nil : Option (List ℕ) → List ℕ
refs_or_nil none = []
refs_or_nil (some refs) = refs

-- The options of the constructor that `subscribe` and `publish` read.
pub record Naming : Type 0 where
  pub key_prefix : Text
  pub trigger_transform : Text → Option Bool → Text

abbrev pub or_false : Option Bool → Bool
or_false none = false
or_false (some b) = b

abbrev pub command_for : Bool → Text → Command
command_for pattern name = if pattern then psubscribes name else subscribes name

abbrev pub release_for : Bool → Text → Command
release_for pattern name = if pattern then punsubscribes name else unsubscribes name

-- The new entry of `subscriptionMap`, under the next number.
abbrev pub insert_event : RedisPubSub → Text → ℕ → Bool → RedisPubSub
insert_event s name h pattern =
    let id = s.current_subscription_id in
    record s {
      subscription_map =
          put s.subscription_map id
            (record { id = id; trigger = name; handler = h; is_pattern = pattern });
      current_subscription_id = id + 1;
    }

abbrev pub await_pending : RedisPubSub → ℕ → Text → Option ℕ → RedisPubSub
await_pending s id name none = s
await_pending s id name (some p) = record s {
  waiters = s.waiters ++ (record { promise = p; id = id; trigger = name; issuer = false }) ∷ [];
}

-- The first subscriber of a channel, whose connection is ready: the command is sent.
abbrev pub issue_subscribe : RedisPubSub → ℕ → Text → Bool → RedisPubSub
issue_subscribe s id name pattern = record s {
  subs_refs_map = put s.subs_refs_map name (id ∷ []);
  pending_subscribes = put s.pending_subscribes name s.next_promise;
  waiters =
      s.waiters
      ++ (record { promise = s.next_promise; id = id; trigger = name; issuer = true }) ∷ [];
  next_promise = s.next_promise + 1;
  commands = s.commands ++ command_for pattern name ∷ [];
}

-- `refs && refs.length > 0`, and the two paths behind it, with the entry of `subscriptionMap` made.
abbrev pub join_channel : RedisPubSub → ℕ → Text → Bool → List ℕ → RedisPubSub
join_channel s id name pattern [] = issue_subscribe s id name pattern
join_channel s id name pattern (r ∷ refs) =
    await_pending (record s { subs_refs_map = put s.subs_refs_map name ((r ∷ refs) ++ id ∷ []) }) id
      name (get s.pending_subscribes name)

-- `subscribe`, up to its `await`, for the channel `name`; the number is the one it will return.
unfoldable pub subscribe_channel : RedisPubSub → Text → ℕ → Bool → RedisPubSub
subscribe_channel s name h pattern =
    join_channel (insert_event s name h pattern) s.current_subscription_id name pattern
      (refs_or_nil (get s.subs_refs_map name))

-- `subscribe(trigger, onMessage, options)`, up to its `await`.
unfoldable pub subscribe : Naming → RedisPubSub → Text → ℕ → Option Bool → RedisPubSub
subscribe naming s trigger h pattern =
    subscribe_channel s (naming.trigger_transform (naming.key_prefix ++ trigger) pattern) h
      (or_false pattern)

-- A list of references that becomes empty is deleted from the map.
abbrev pub store_refs : RedisPubSub → Text → List ℕ → RedisPubSub
store_refs s name [] = record s { subs_refs_map = delete s.subs_refs_map name }
store_refs s name (r ∷ refs) = record s { subs_refs_map = put s.subs_refs_map name (r ∷ refs) }

-- `indexOf` and `splice(index, 1)`
abbrev pub drop_ref : ℕ → List ℕ → List ℕ
drop_ref id refs = remove_first (λ r. r == id) refs

abbrev pub drop_stored : RedisPubSub → ℕ → Text → Option (List ℕ) → RedisPubSub
drop_stored s id name none = s
drop_stored s id name (some refs) = store_refs s name (drop_ref id refs)

unfoldable pub rollback_subscription : RedisPubSub → ℕ → Text → RedisPubSub
rollback_subscription s id name =
    drop_stored (record s { subscription_map = delete s.subscription_map id }) id name
      (get s.subs_refs_map name)

-- The `finally` of the call that made the promise.
abbrev pub finish : Bool → Text → RedisPubSub → RedisPubSub
finish true name s = record s { pending_subscribes = delete s.pending_subscribes name }
finish false name s = s

-- The continuation of one call of `subscribe`; `fulfilled` tells how its promise settled.
unfoldable pub resume : Bool → Waiter → RedisPubSub → RedisPubSub
resume fulfilled w s =
    finish w.issuer w.trigger (if fulfilled then s else rollback_subscription s w.id w.trigger)

-- The continuations that wait for a promise run; the others go on waiting.
unfoldable pub resume_all : ℕ → Bool → List Waiter → RedisPubSub → RedisPubSub
resume_all p fulfilled [] s = s
resume_all p fulfilled (w ∷ ws) s =
    resume_all p fulfilled ws
      (if w.promise == p then resume fulfilled w s else record s { waiters = s.waiters ++ w ∷ [] })

-- The promise `p` of `performSubscribe` settles.
unfoldable pub settle : RedisPubSub → ℕ → Bool → RedisPubSub
settle s p fulfilled = resume_all p fulfilled s.waiters (record s { waiters = [] })

pub data UnsubscribeError : Type 0 where
  no_subscription : ℕ → UnsubscribeError
  no_trigger : Text → UnsubscribeError

-- `refs.length === 1`, and the two paths behind it.
abbrev pub release_ref : RedisPubSub → ℕ → SubscriptionEvent → List ℕ → RedisPubSub
release_ref s id e (r ∷ []) = record s {
  subs_refs_map = delete s.subs_refs_map e.trigger;
  commands = s.commands ++ release_for e.is_pattern e.trigger ∷ [];
}
release_ref s id e refs = record s {
  subs_refs_map = put s.subs_refs_map e.trigger (drop_ref id refs);
}

abbrev pub remove_event : ℕ → RedisPubSub → RedisPubSub
remove_event id s = record s { subscription_map = delete s.subscription_map id }

unfoldable pub unsubscribe : RedisPubSub → ℕ → Option UnsubscribeError × RedisPubSub
unsubscribe s id = elim (get s.subscription_map id) [
  | none ↦ (some (no_subscription id), s)
  | some e ↦ elim (get s.subs_refs_map e.trigger) [
    | none ↦ (some (no_trigger e.trigger), s)
    | some refs ↦ (none, remove_event id (release_ref s id e refs))
  ]
]

-- What a loop over handlers called, in order, and whether the last of these threw.
pub record Dispatched : Type 0 where
  pub called : List ℕ
  pub threw : Bool

-- Nothing catches what a handler throws.
abbrev pub dispatch_handler : Bool → ℕ → Dispatched → Dispatched
dispatch_handler true h rest = record { called = h ∷ []; threw = true }
dispatch_handler false h rest = record { called = h ∷ rest.called; threw = rest.threw }

-- The loop of `onMessage`: the handlers of the references that have an entry.
unfoldable pub call_handlers : (ℕ → Bool) → Map ℕ SubscriptionEvent → List ℕ → Dispatched
call_handlers throws events [] = record { called = []; threw = false }
call_handlers throws events (r ∷ refs) = elim (get events r) [
  | none ↦ call_handlers throws events refs
  | some e ↦ dispatch_handler (throws e.handler) e.handler (call_handlers throws events refs)
]

abbrev pub lookup_key : Option Text → Text → Text
lookup_key none channel = channel
lookup_key (some pattern) channel = pattern

-- `onMessage`, for one message, with which of the handlers it throws at; they leave the
-- subscriptions alone.
unfoldable pub on_message : (ℕ → Bool) → RedisPubSub → Option Text → Text → Dispatched
on_message throws s pattern channel =
    call_handlers throws s.subscription_map
      (refs_or_nil (get s.subs_refs_map (lookup_key pattern channel)))

abbrev pub channel_counts : Map Text (List ℕ) → List (Text × ℕ)
channel_counts [] = []
channel_counts ((name, refs) ∷ rest) = (name, length refs) ∷ channel_counts rest

-- `debug()`
unfoldable pub debug : RedisPubSub → ℕ × ℕ × List (Text × ℕ)
debug s = (length s.subscription_map, length s.subs_refs_map, channel_counts s.subs_refs_map)
