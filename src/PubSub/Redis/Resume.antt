-- ===== src/PubSub/Redis/Resume.antt =====
-- The promise of a Redis command settles: the continuations that wait for it.
use elysia_nest.Base.{
  ℕ, ◌+◌, ◌≡◌, ◌||◌, ◌&&◌, not, has, refl, sym, ap, ◌∙◌, Option, some, Text, nat_beq, nat_beq_iff,
  inl, inr, Bool, true, false, none, List, [], ◌∷◌, ◌++◌, get, get-delete, text_eq, nat_eq, ◌==◌,
  if◌then◌else◌, All, arith, Bool-cases,
}
use elysia_nest.PubSub.Redis.{
  SubscriptionEvent, refs_or_nil, Waiter, RedisPubSub, resume, resume_all, settle,
}
use elysia_nest.PubSub.Redis.Coherent.{Events, Agrees, IsCoherent, ids_for, Rising, get_below}
use elysia_nest.PubSub.Redis.Removal.{
  All-append_one, IsCoherent-resume, Leaves-resume, Agrees-delete,
}

Agrees-resume :
    (fulfilled : Bool) (w : Waiter) (s : RedisPubSub) (v : Waiter)
    → Agrees s.subscription_map s.current_subscription_id v
    → Agrees
        (resume fulfilled w s).subscription_map
        (resume fulfilled w s).current_subscription_id
        v
Agrees-resume true w s v a = let (m, n) = Leaves-resume true w s in rw (m, n) a
Agrees-resume false w s v a =
    let (m, n) = Leaves-resume false w s in
    rw (m, n) (Agrees-delete s.subscription_map s.current_subscription_id w.id v a)

All-Agrees-resume :
    (fulfilled : Bool) (w : Waiter) (s : RedisPubSub) (ws : List Waiter)
    → All (Agrees s.subscription_map s.current_subscription_id) ws
    → All
        (Agrees
          (resume fulfilled w s).subscription_map
          (resume fulfilled w s).current_subscription_id)
        ws
All-Agrees-resume fulfilled w s [] a = tt
All-Agrees-resume fulfilled w s (v ∷ ws) (a, more) =
    (Agrees-resume fulfilled w s v a, All-Agrees-resume fulfilled w s ws more)

IsCoherent-resume_all :
    (p : ℕ) (fulfilled : Bool) (ws : List Waiter) (s : RedisPubSub)
    → All (Agrees s.subscription_map s.current_subscription_id) ws
    → IsCoherent s
    → IsCoherent (resume_all p fulfilled ws s)
unfolding resume_all
IsCoherent-resume_all p fulfilled [] s a v = v
IsCoherent-resume_all p fulfilled (w ∷ ws) s (a, more) v = elim (Bool-cases (w.promise == p)) [
  | inl here ↦ rw here (
      IsCoherent-resume_all p fulfilled ws (resume fulfilled w s)
        (All-Agrees-resume fulfilled w s ws more) (IsCoherent-resume fulfilled w s a v))
  | inr there ↦ rw there (
      IsCoherent-resume_all p fulfilled ws (record s { waiters = s.waiters ++ w ∷ [] }) more
        (record {
          rising = v.rising;
          refs = v.refs;
          nonempty = v.nonempty;
          waiting = All-append_one _ s.waiters w v.waiting a;
        }))
]

pub IsCoherent-settle :
    (s : RedisPubSub) (p : ℕ) (fulfilled : Bool) → IsCoherent s → IsCoherent (settle s p fulfilled)
unfolding settle
IsCoherent-settle s p fulfilled v =
    IsCoherent-resume_all p fulfilled s.waiters (record s { waiters = [] }) v.waiting
      (record { rising = v.rising; refs = v.refs; nonempty = v.nonempty; waiting = tt })

-- Whether a call of `subscribe` with the number `id` awaits the promise `p`.
abbrev pub waits_for : ℕ → List Waiter → ℕ → Bool
waits_for p [] id = false
waits_for p (w ∷ ws) id = (w.promise == p && w.id == id) || waits_for p ws id

events-resume_all :
    (p : ℕ) (ws : List Waiter) (s : RedisPubSub) (id : ℕ)
    → get (resume_all p false ws s).subscription_map id
      ≡ (if waits_for p ws id then none else get s.subscription_map id)
unfolding resume_all
events-resume_all p [] s id = refl
events-resume_all p (w ∷ ws) s id = elim (Bool-cases (w.promise == p)) [
  | inl here ↦
      let (m, n) = Leaves-resume false w s in
      let gone : get (resume false w s).subscription_map id
          ≡ (if w.id == id then none else get s.subscription_map id) =
        ap (λ (l : Events). get l id) m ∙ get-delete s.subscription_map w.id id in
      ground (arith, events-resume_all p ws (resume false w s) id)
  | inr there ↦
      ground (arith, events-resume_all p ws (record s { waiters = s.waiters ++ w ∷ [] }) id)
]

settle-removes :
    (s : RedisPubSub) (p id : ℕ)
    → get (settle s p false).subscription_map id
      ≡ (if waits_for p s.waiters id then none else get s.subscription_map id)
unfolding settle
settle-removes s p id = events-resume_all p s.waiters (record s { waiters = [] }) id

abbrev is_to : Text → Option SubscriptionEvent → Bool
is_to name none = false
is_to name (some e) = e.trigger == name

has-ids_for :
    (name : Text) (lo : ℕ) (m : Events) (hi id : ℕ)
    → Rising lo m hi
    → has (ids_for name m) id ≡ is_to name (get m id)
unfolding get
has-ids_for name lo [] hi id b = refl
has-ids_for name lo ((i, e) ∷ m) hi id (b, bs) = elim (Bool-cases (nat_beq i id)) [
  | inl here ↦
      let later : has (ids_for name m) id ≡ false =
        has-ids_for name (i + 1) m hi id bs
        ∙ ap (is_to name) (get_below (i + 1) m hi id bs (ground (arith, nat_beq_iff i id))) in
      ground (arith, later)
  | inr there ↦ ground (arith, has-ids_for name (i + 1) m hi id bs)
]

is_to_unless :
    (name : Text) (b : Bool) (o : Option SubscriptionEvent)
    → is_to name (if b then none else o) ≡ (not b && is_to name o)
is_to_unless name true o = refl
is_to_unless name false o = refl

-- In a coherent state, where the command of the promise `p` fails, every call of `subscribe` that
-- awaits it is undone: its entry is gone and no channel lists it. All other subscriptions keep
-- their entries, and the channels list those that they listed.
pub rejected_subscribers_removed :
    (s : RedisPubSub) (p id : ℕ)
    → IsCoherent s
    → (get (settle s p false).subscription_map id
        ≡ (if waits_for p s.waiters id then none else get s.subscription_map id))
      × ((name : Text)
          → has (refs_or_nil (get (settle s p false).subs_refs_map name)) id
            ≡ (not (waits_for p s.waiters id) && has (refs_or_nil (get s.subs_refs_map name)) id))
rejected_subscribers_removed s p id v =
    let after = IsCoherent-settle s p false v in
    (
      settle-removes s p id,
      λ name.
          ap (λ l. has l id) (after.refs name)
          ∙ has-ids_for name 0 (settle s p false).subscription_map
              (settle s p false).current_subscription_id id after.rising
          ∙ ap (is_to name) (settle-removes s p id)
          ∙ is_to_unless name (waits_for p s.waiters id) (get s.subscription_map id)
          ∙ ap (λ b. not (waits_for p s.waiters id) && b)
              (sym (
                ap (λ l. has l id) (v.refs name)
                ∙ has-ids_for name 0 s.subscription_map s.current_subscription_id id v.rising)),
    )
