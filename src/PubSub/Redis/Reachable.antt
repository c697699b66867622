-- ===== src/PubSub/Redis/Reachable.antt =====
-- `unsubscribe`, and the states that a program can reach by the operations of `RedisPubSub`.
use elysia_nest.Base.{
  ℕ, ◌≡◌, ◌≢◌, refl, sym, ap, ◌∙◌, subst, inl, inr, Bool, true, Option, none, some, List, [], ◌∷◌,
  ◌++◌, get, delete, Text, text_eq, text_beq_iff, nat_eq, nat_beq, ◌==◌, if◌then◌else◌, has, arith,
  Bool-cases, Option-cases,
}
use elysia_nest.PubSub.Redis.{
  SubscriptionEvent, RedisPubSub, refs_or_nil, drop_ref, store_refs, settle, subscribe, Naming,
  unsubscribe, release_ref, remove_event, UnsubscribeError, new_pubsub, release_for,
}
use elysia_nest.PubSub.Redis.Coherent.{Events, ids_for, IsCoherent, ids_for-delete}
use elysia_nest.PubSub.Redis.Removal.{IsCoherent-remove}
use elysia_nest.PubSub.Redis.Resume.{IsCoherent-settle}
use elysia_nest.PubSub.Redis.Subscribe.{IsCoherent-subscribe, IsCoherent-new}

ids_for-has :
    (m : Events) (id : ℕ) (e : SubscriptionEvent)
    → get m id ≡ some e
    → has (ids_for e.trigger m) id ≡ true
unfolding get
ids_for-has [] id e h = ground arith
ids_for-has ((i, d) ∷ m) id e h = elim (Bool-cases (nat_beq i id)) [
  | inl here ↦
      let same : d ≡ e = ground arith in
      let trigger = ap (λ (v : SubscriptionEvent). v.trigger) same in
      ground (arith, text_beq_iff d.trigger e.trigger)
  | inr there ↦ ground (arith, ids_for-has m id e (ground arith))
]

-- `release_ref` against the list without the number.
release-store :
    (s : RedisPubSub) (id : ℕ) (e : SubscriptionEvent) (refs : List ℕ)
    → has refs id ≡ true
    → ((remove_event id (release_ref s id e refs)).subs_refs_map
        ≡ (store_refs s e.trigger (drop_ref id refs)).subs_refs_map)
      × ((remove_event id (release_ref s id e refs)).commands ≡ (
          if drop_ref id refs == []
          then s.commands ++ release_for e.is_pattern e.trigger ∷ []
          else s.commands))
release-store s id e [] h = absurd (ground arith)
release-store s id e (r ∷ []) h = elim (Bool-cases (r == id)) [
  | inl here ↦ rw here (refl, refl)
  | inr there ↦ absurd (ground arith)
]
release-store s id e (r ∷ q ∷ refs) h = elim (Bool-cases (r == id)) [
  | inl here ↦ rw here (refl, refl)
  | inr there ↦ rw there (refl, refl)
]

release-events :
    (s : RedisPubSub) (id : ℕ) (e : SubscriptionEvent) (refs : List ℕ)
    → (remove_event id (release_ref s id e refs)).subscription_map ≡ delete s.subscription_map id
release-events s id e [] = refl
release-events s id e (r ∷ []) = refl
release-events s id e (r ∷ q ∷ refs) = refl

-- Of the fields of a state, coherence reads these.
IsCoherent-fields :
    (s t : RedisPubSub)
    → t.subscription_map ≡ s.subscription_map
    → t.subs_refs_map ≡ s.subs_refs_map
    → t.current_subscription_id ≡ s.current_subscription_id
    → t.waiters ≡ s.waiters
    → IsCoherent s
    → IsCoherent t
IsCoherent-fields s t a b c d v = record {
  rising = rw (a, c) v.rising;
  refs = λ name. rw (a, b) (v.refs name);
  nonempty = λ name. rw b (v.nonempty name);
  waiting = rw (a, c, d) v.waiting;
}

-- Neither operation touches the counter and the waiters.
release-others :
    (s : RedisPubSub) (id : ℕ) (e : SubscriptionEvent) (refs : List ℕ)
    → ((remove_event id (release_ref s id e refs)).current_subscription_id
        ≡ s.current_subscription_id)
      × ((remove_event id (release_ref s id e refs)).waiters ≡ s.waiters)
release-others s id e [] = (refl, refl)
release-others s id e (r ∷ []) = (refl, refl)
release-others s id e (r ∷ q ∷ refs) = (refl, refl)

store-others :
    (s : RedisPubSub) (name : Text) (l : List ℕ)
    → ((store_refs s name l).subscription_map ≡ s.subscription_map)
      × ((store_refs s name l).current_subscription_id ≡ s.current_subscription_id)
      × ((store_refs s name l).waiters ≡ s.waiters)
store-others s name [] = (refl, refl, refl)
store-others s name (r ∷ l) = (refl, refl, refl)

store_refs-same :
    (s : RedisPubSub) (m : Events) (name : Text) (l : List ℕ)
    → (store_refs (record s { subscription_map = m }) name l).subs_refs_map
      ≡ (store_refs s name l).subs_refs_map
store_refs-same s m name [] = refl
store_refs-same s m name (r ∷ l) = refl

IsCoherent-release :
    (s : RedisPubSub) (id : ℕ) (e : SubscriptionEvent) (refs : List ℕ)
    → IsCoherent s
    → get s.subscription_map id ≡ some e
    → refs ≡ ids_for e.trigger s.subscription_map
    → refs ≡ refs_or_nil (get s.subs_refs_map e.trigger)
    → IsCoherent (remove_event id (release_ref s id e refs))
IsCoherent-release s id e refs v known same stored =
    let s' : RedisPubSub = record s { subscription_map = delete s.subscription_map id } in
    let removed =
      IsCoherent-remove s id e.trigger refs
        (λ d h. let d_e : d ≡ e = ground arith in ap (λ (x : SubscriptionEvent). x.trigger) d_e)
        stored v in
    let (maps, sent) =
      release-store s id e refs (rw same (ids_for-has s.subscription_map id e known)) in
    let (next_r, waiters_r) = release-others s id e refs in
    let (events_s, next_s, waiters_s) = store-others s' e.trigger (drop_ref id refs) in
    IsCoherent-fields (store_refs s' e.trigger (drop_ref id refs)) _
      (release-events s id e refs ∙ sym events_s)
      (maps ∙ sym (store_refs-same s (delete s.subscription_map id) e.trigger (drop_ref id refs)))
      (next_r ∙ sym next_s) (waiters_r ∙ sym waiters_s) removed

unsubscribe-none :
    (s : RedisPubSub) (id : ℕ) → get s.subscription_map id ≡ none → (unsubscribe s id).1 ≡ s
unfolding unsubscribe
unsubscribe-none s id h = rw (h, unsubscribe)

-- What `unsubscribe` does with a subscription that exists.
unsubscribe-some :
    (s : RedisPubSub) (id : ℕ) (e : SubscriptionEvent)
    → IsCoherent s
    → get s.subscription_map id ≡ some e
    → (refs : List ℕ) × (refs ≡ ids_for e.trigger s.subscription_map)
      × (refs ≡ refs_or_nil (get s.subs_refs_map e.trigger))
      × (unsubscribe s id ≡ (none, remove_event id (release_ref s id e refs)))
unfolding unsubscribe
unsubscribe-some s id e v known =
    let listed = ids_for-has s.subscription_map id e known in
    elim (Option-cases (get s.subs_refs_map e.trigger)) [
      | inl gone ↦ absurd (ground (arith, v.refs e.trigger))
      | inr (refs, stored) ↦
          let stored' : refs ≡ refs_or_nil (get s.subs_refs_map e.trigger) = ground arith in
          (refs, stored' ∙ v.refs e.trigger, stored', rw (known, stored, unsubscribe))
    ]

-- What the map holds of a channel with these references: an empty list is not stored.
abbrev pub refs_option : List ℕ → Option (List ℕ)
refs_option [] = none
refs_option (r ∷ refs) = some (r ∷ refs)

listed_as : (o : Option (List ℕ)) (l : List ℕ) → o ≢ some [] → refs_or_nil o ≡ l → o ≡ refs_option l
listed_as none l h e = ap refs_option e
listed_as (some []) l h e = absurd (h refl)
listed_as (some (r ∷ refs)) l h e = ap refs_option e

unsubscribe-sends :
    (s : RedisPubSub) (id : ℕ) (e : SubscriptionEvent)
    → IsCoherent s
    → get s.subscription_map id ≡ some e
    → ((unsubscribe s id).0 ≡ none)
      × ((unsubscribe s id).1.subscription_map ≡ delete s.subscription_map id)
      × ((unsubscribe s id).1.commands ≡ (
          if ids_for e.trigger (delete s.subscription_map id) == []
          then s.commands ++ release_for e.is_pattern e.trigger ∷ []
          else s.commands))
unsubscribe-sends s id e v known =
    let (refs, same, stored, result) = unsubscribe-some s id e v known in
    let (maps, sent) =
      release-store s id e refs (rw same (ids_for-has s.subscription_map id e known)) in
    let gone =
      ids_for-delete e.trigger 0 s.subscription_map s.current_subscription_id id v.rising in
    (
      ap (λ (r : Option UnsubscribeError × RedisPubSub). r.0) result,
      ap (λ (r : Option UnsubscribeError × RedisPubSub). r.1.subscription_map) result
          ∙ release-events s id e refs,
      ap (λ (r : Option UnsubscribeError × RedisPubSub). r.1.commands) result
          ∙ sent
          ∙ ap
              (λ (l : List ℕ).
                if l == []
                then s.commands ++ release_for e.is_pattern e.trigger ∷ []
                else s.commands)
              (ap (drop_ref id) same ∙ sym gone),
    )

IsCoherent-unsubscribe : (s : RedisPubSub) (id : ℕ) → IsCoherent s → IsCoherent (unsubscribe s id).1
IsCoherent-unsubscribe s id v = elim (Option-cases (get s.subscription_map id)) [
  | inl missing ↦ subst IsCoherent (sym (unsubscribe-none s id missing)) v
  | inr (e, known) ↦
      let (refs, same, stored, result) = unsubscribe-some s id e v known in
      subst (λ (r : Option UnsubscribeError × RedisPubSub). IsCoherent r.1) (sym result)
        (IsCoherent-release s id e refs v known same stored)
]

-- `unsubscribe` of a subscription that exists returns without an error and removes its entry alone.
-- Each channel then lists the subscriptions that are left to it, and where none is left the channel
-- itself is deleted. A command is sent exactly where no other subscription to the channel is left:
-- PUNSUBSCRIBE if this last subscription was one to a pattern, else UNSUBSCRIBE.
pub unsubscribe-IsCoherent :
    (s : RedisPubSub) (id : ℕ) (e : SubscriptionEvent)
    → IsCoherent s
    → get s.subscription_map id ≡ some e
    → ((unsubscribe s id).0 ≡ none)
      × ((unsubscribe s id).1.subscription_map ≡ delete s.subscription_map id)
      × ((name : Text)
          → get (unsubscribe s id).1.subs_refs_map name
            ≡ refs_option (ids_for name (delete s.subscription_map id)))
      × ((unsubscribe s id).1.commands ≡ (
          if ids_for e.trigger (delete s.subscription_map id) == []
          then s.commands ++ release_for e.is_pattern e.trigger ∷ []
          else s.commands))
unsubscribe-IsCoherent s id e v known =
    let (returns, events, sends) = unsubscribe-sends s id e v known in
    let kept = IsCoherent-unsubscribe s id v in
    (
      returns,
      events,
      λ name.
          listed_as (get (unsubscribe s id).1.subs_refs_map name) _ (kept.nonempty name)
            (kept.refs name ∙ ap (ids_for name) events),
      sends,
    )

-- One call, or one promise that settles.
pub data Step (naming : Naming) (s : RedisPubSub) : RedisPubSub → Type 0 where
  subscribes :
      (trigger : Text) (handler : ℕ) (pattern : Option Bool)
      → Step naming s (subscribe naming s trigger handler pattern)
  settles : (promise : ℕ) (fulfilled : Bool) → Step naming s (settle s promise fulfilled)
  unsubscribes : (id : ℕ) → Step naming s (unsubscribe s id).1

pub data Reachable (naming : Naming) : RedisPubSub → Type 0 where
  created : Reachable naming new_pubsub
  next : {s t : RedisPubSub} → Reachable naming s → Step naming s t → Reachable naming t

Step-IsCoherent :
    (naming : Naming) {s t : RedisPubSub} → Step naming s t → IsCoherent s → IsCoherent t
Step-IsCoherent naming {s} (subscribes trigger handler pattern) v =
    IsCoherent-subscribe naming s trigger handler pattern v
Step-IsCoherent naming {s} (settles promise fulfilled) v = IsCoherent-settle s promise fulfilled v
Step-IsCoherent naming {s} (unsubscribes id) v = IsCoherent-unsubscribe s id v

-- In every reachable state, with any interleaving of subscriptions, failed and fulfilled Redis
-- commands and cancellations, a channel lists exactly its subscriptions, once each and in order,
-- and a channel without a subscription is not listed.
pub Reachable-IsCoherent : (naming : Naming) {s : RedisPubSub} → Reachable naming s → IsCoherent s
Reachable-IsCoherent naming created = IsCoherent-new
Reachable-IsCoherent naming (next r step) =
    Step-IsCoherent naming step (Reachable-IsCoherent naming r)
