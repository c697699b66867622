-- ===== src/PubSub/Redis/Subscribe.antt =====
-- `subscribe` of `RedisPubSub` keeps its maps coherent.
use mathlib.Core.List.{append-nil}
use elysia_nest.Base.{
  ℕ, ◌+◌, ◌≡◌, ◌≢◌, refl, sym, ap, Bool, true, false, Option, none, some, List, [], ◌∷◌, ◌++◌, get,
  put, get-put, Text, text_eq, text_beq_iff, nat_eq, nat_beq_iff, All, arith,
}
use elysia_nest.PubSub.Redis.{
  SubscriptionEvent, Waiter, RedisPubSub, refs_or_nil, insert_event, join_channel,
  subscribe_channel, subscribe, Naming, or_false, new_pubsub, await_pending,
}
use elysia_nest.PubSub.Redis.Coherent.{
  Events, Rising, ids_for, Agrees, IsCoherent, put_next, Rising-append, ids_for-append,
}
use elysia_nest.PubSub.Redis.Removal.{All-append_one}

module _ (m : Events) (next : ℕ) (e : SubscriptionEvent) where
  Agrees-put : (w : Waiter) → Agrees m next w → Agrees (put m next e) (next + 1) w
  Agrees-put w a = record {
    old = omega (arith, a.old);
    same = λ d h. a.same d (ground (arith, get-put m next e w.id, nat_beq_iff next w.id, a.old));
  }

  All-Agrees-put :
      (ws : List Waiter) → All (Agrees m next) ws → All (Agrees (put m next e) (next + 1)) ws
  All-Agrees-put [] a = tt
  All-Agrees-put (w ∷ ws) (a, more) = (Agrees-put w a, All-Agrees-put ws more)

  Agrees-new :
      (p : ℕ) (issuer : Bool)
      → Agrees
          (put m next e)
          (next + 1)
          (record { promise = p; id = next; trigger = e.trigger; issuer = issuer })
  Agrees-new p issuer = record {
    old = omega arith;
    same = λ d h.
        let same : e ≡ d = ground (arith, get-put m next e next, nat_beq_iff next next) in
        ap (λ (v : SubscriptionEvent). v.trigger) (sym same);
  }

-- The lists of the channels after the entry of a new subscription is made.
refs_insert :
    (s : RedisPubSub) (name : Text) (e : SubscriptionEvent) (l : List ℕ)
    → e.trigger ≡ name
    → l ≡ refs_or_nil (get s.subs_refs_map name) ++ s.current_subscription_id ∷ []
    → IsCoherent s
    → (other : Text)
    → refs_or_nil (get (put s.subs_refs_map name l) other)
      ≡ ids_for other (put s.subscription_map s.current_subscription_id e)
refs_insert s name e l named listed v other =
    let id = s.current_subscription_id in
    rw (put_next 0 s.subscription_map id e v.rising) (
      ground (
        arith,
        get-put s.subs_refs_map name l other,
        ids_for-append other s.subscription_map id e,
        v.refs other,
        text_beq_iff name other,
        append-nil (ids_for other s.subscription_map),
      ))

nonempty_insert :
    (s : RedisPubSub) (name : Text) (r : ℕ) (l : List ℕ)
    → IsCoherent s
    → (other : Text) → get (put s.subs_refs_map name (r ∷ l)) other ≢ some []
nonempty_insert s name r l v other k =
    v.nonempty other (ground (arith, get-put s.subs_refs_map name (r ∷ l) other))

Rising-insert :
    (s : RedisPubSub) (e : SubscriptionEvent)
    → IsCoherent s
    → Rising 0 (put s.subscription_map s.current_subscription_id e) (s.current_subscription_id + 1)
Rising-insert s e v =
    rw (put_next 0 s.subscription_map s.current_subscription_id e v.rising)
      (Rising-append 0 s.subscription_map s.current_subscription_id e v.rising)

IsCoherent-await_pending :
    (s : RedisPubSub) (id : ℕ) (name : Text) (o : Option ℕ)
    → ((p : ℕ)
        → Agrees s.subscription_map s.current_subscription_id
            (record { promise = p; id = id; trigger = name; issuer = false }))
    → IsCoherent s
    → IsCoherent (await_pending s id name o)
IsCoherent-await_pending s id name none a v = v
IsCoherent-await_pending s id name (some p) a v = record {
  rising = v.rising;
  refs = v.refs;
  nonempty = v.nonempty;
  waiting = All-append_one _ s.waiters _ v.waiting (a p);
}

IsCoherent-join_channel :
    (s : RedisPubSub) (name : Text) (h : ℕ) (pattern : Bool) (refs : List ℕ)
    → refs ≡ refs_or_nil (get s.subs_refs_map name)
    → IsCoherent s
    → IsCoherent
        (join_channel (insert_event s name h pattern) s.current_subscription_id name pattern refs)
IsCoherent-join_channel s name h pattern [] stored v =
    let id = s.current_subscription_id in
    let e : SubscriptionEvent = record {
      id = id;
      trigger = name;
      handler = h;
      is_pattern = pattern;
    } in
    record {
      rising = Rising-insert s e v;
      refs = refs_insert s name e (id ∷ []) refl (ap (λ (l : List ℕ). l ++ id ∷ []) stored) v;
      nonempty = nonempty_insert s name id [] v;
      waiting =
          All-append_one _ s.waiters _ (All-Agrees-put s.subscription_map id e s.waiters v.waiting)
            (Agrees-new s.subscription_map id e s.next_promise true);
    }
IsCoherent-join_channel s name h pattern (r ∷ refs) stored v =
    let id = s.current_subscription_id in
    let e : SubscriptionEvent = record {
      id = id;
      trigger = name;
      handler = h;
      is_pattern = pattern;
    } in
    IsCoherent-await_pending _ id name (get s.pending_subscribes name)
      (λ p. Agrees-new s.subscription_map id e p false)
      (record {
        rising = Rising-insert s e v;
        refs =
            refs_insert s name e ((r ∷ refs) ++ id ∷ []) refl
              (ap (λ (l : List ℕ). l ++ id ∷ []) stored) v;
        nonempty = nonempty_insert s name r (refs ++ id ∷ []) v;
        waiting = All-Agrees-put s.subscription_map id e s.waiters v.waiting;
      })

pub IsCoherent-subscribe :
    (naming : Naming) (s : RedisPubSub) (trigger : Text) (h : ℕ) (pattern : Option Bool)
    → IsCoherent s
    → IsCoherent (subscribe naming s trigger h pattern)
unfolding subscribe subscribe_channel
IsCoherent-subscribe naming s trigger h pattern v =
    IsCoherent-join_channel s (naming.trigger_transform (naming.key_prefix ++ trigger) pattern) h
      (or_false pattern) _ refl v

pub IsCoherent-new : IsCoherent new_pubsub
unfolding get
IsCoherent-new = record {
  rising = omega arith;
  refs = λ name. refl;
  nonempty = λ name k. ground arith;
  waiting = tt;
}
