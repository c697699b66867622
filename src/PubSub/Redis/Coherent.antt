-- ===== src/PubSub/Redis/Coherent.antt =====
-- The two maps of `RedisPubSub` against one another, and the operations that read them.
use elysia_nest.Base.{
  ℕ, ◌+◌, ◌≤◌, ◌<◌, ◌≡◌, ◌≢◌, refl, inl, inr, none, some, List, [], ◌∷◌, ◌++◌, Map, get, put,
  delete, Text, text_eq, text_beq_iff, nat_eq, nat_beq, nat_beq_iff, ◌==◌, if◌then◌else◌, All,
  arith, Bool-cases, Bool, false, ◌||◌,
}
use elysia_nest.PubSub.Redis.{SubscriptionEvent, Waiter, RedisPubSub, refs_or_nil, drop_ref}

abbrev pub Events : Type 0
Events = Map ℕ SubscriptionEvent

-- Numbers rise from `lo` on and stay below `hi`.
abbrev pub Rising : ℕ → Events → ℕ → Type 0
Rising lo [] hi = lo ≤ hi
Rising lo ((i, e) ∷ m) hi = (lo ≤ i) × Rising (i + 1) m hi

-- The subscriptions to a channel, in the order of their numbers.
abbrev pub ids_for : Text → Events → List ℕ
ids_for name [] = []
ids_for name ((i, e) ∷ m) =
    let rest = ids_for name m in if e.trigger == name then i ∷ rest else rest

abbrev pub handlers_for : Text → Events → List ℕ
handlers_for name [] = []
handlers_for name ((i, e) ∷ m) =
    let rest = handlers_for name m in if e.trigger == name then e.handler ∷ rest else rest

-- A subscription that waits is one to the channel that it names, if it is still there.
pub record Agrees (m : Events) (next : ℕ) (w : Waiter) : Type 0 where
  pub old : w.id < next
  pub same : (e : SubscriptionEvent) → get m w.id ≡ some e → e.trigger ≡ w.trigger

-- Each channel lists its subscriptions in order, and a channel without one is in no map.
pub record IsCoherent (s : RedisPubSub) : Type 0 where
  pub rising : Rising 0 s.subscription_map s.current_subscription_id
  pub refs :
      (name : Text) → refs_or_nil (get s.subs_refs_map name) ≡ ids_for name s.subscription_map
  pub nonempty : (name : Text) → get s.subs_refs_map name ≢ some []
  pub waiting : All (Agrees s.subscription_map s.current_subscription_id) s.waiters

pub Rising-lower : (lo lo' : ℕ) (m : Events) (hi : ℕ) → lo' ≤ lo → Rising lo m hi → Rising lo' m hi
Rising-lower lo lo' [] hi h b = omega arith
Rising-lower lo lo' ((i, e) ∷ m) hi h (b, bs) = (omega arith, bs)

pub get_below : (lo : ℕ) (m : Events) (hi i : ℕ) → Rising lo m hi → i < lo → get m i ≡ none
unfolding get
get_below lo [] hi i b h = refl
get_below lo ((j, e) ∷ m) hi i (b, bs) h = ground (arith, get_below (j + 1) m hi i bs)

pub delete_below : (lo : ℕ) (m : Events) (hi i : ℕ) → Rising lo m hi → i < lo → delete m i ≡ m
unfolding delete
delete_below lo [] hi i b h = refl
delete_below lo ((j, e) ∷ m) hi i (b, bs) h = ground (arith, delete_below (j + 1) m hi i bs)

pub Rising-bound : (lo : ℕ) (m : Events) (hi : ℕ) → Rising lo m hi → lo ≤ hi
Rising-bound lo [] hi b = b
Rising-bound lo ((j, e) ∷ m) hi (b, bs) = omega (arith, Rising-bound (j + 1) m hi bs)

pub put_next :
    (lo : ℕ) (m : Events) (hi : ℕ) (e : SubscriptionEvent)
    → Rising lo m hi
    → put m hi e ≡ m ++ (hi, e) ∷ []
unfolding put
put_next lo [] hi e b = refl
put_next lo ((j, d) ∷ m) hi e (b, bs) =
    let below : j < hi = omega (arith, Rising-bound (j + 1) m hi bs) in
    ground (arith, put_next (j + 1) m hi e bs)

pub Rising-append :
    (lo : ℕ) (m : Events) (hi : ℕ) (e : SubscriptionEvent)
    → Rising lo m hi
    → Rising lo (m ++ (hi, e) ∷ []) (hi + 1)
Rising-append lo [] hi e b = (b, omega arith)
Rising-append lo ((j, d) ∷ m) hi e (b, bs) = (b, Rising-append (j + 1) m hi e bs)

pub Rising-delete : (lo : ℕ) (m : Events) (hi i : ℕ) → Rising lo m hi → Rising lo (delete m i) hi
unfolding delete
Rising-delete lo [] hi i b = b
Rising-delete lo ((j, e) ∷ m) hi i (b, bs) = elim (Bool-cases (nat_beq j i)) [
  | inl same ↦
      rw same
        (Rising-lower (j + 1) lo (delete m i) hi (omega arith) (Rising-delete (j + 1) m hi i bs))
  | inr other ↦ rw other (b, Rising-delete (j + 1) m hi i bs)
]

pub ids_for-append :
    (name : Text) (m : Events) (i : ℕ) (e : SubscriptionEvent)
    → ids_for name (m ++ (i, e) ∷ []) ≡ ids_for name m ++ (if e.trigger == name then i ∷ [] else [])
ids_for-append name [] i e = ground arith
ids_for-append name ((j, d) ∷ m) i e = ground (arith, ids_for-append name m i e)

-- Deleting an entry takes its number out of each list.
pub ids_for-delete :
    (name : Text) (lo : ℕ) (m : Events) (hi i : ℕ)
    → Rising lo m hi
    → ids_for name (delete m i) ≡ drop_ref i (ids_for name m)
unfolding delete
ids_for-delete name lo [] hi i b = refl
ids_for-delete name lo ((j, e) ∷ m) hi i (b, bs) =
    ground (
      arith,
      nat_beq_iff j i,
      ids_for-delete name (j + 1) m hi i bs,
      delete_below (j + 1) m hi i bs,
    )

-- A subscription to another channel is not listed.
pub drop_ref_other :
    (name : Text) (lo : ℕ) (m : Events) (hi i : ℕ)
    → Rising lo m hi
    → ((e : SubscriptionEvent) → get m i ≡ some e → e.trigger ≢ name)
    → drop_ref i (ids_for name m) ≡ ids_for name m
unfolding get
drop_ref_other name lo [] hi i b h = refl
drop_ref_other name lo ((j, e) ∷ m) hi i (b, bs) h = elim (Bool-cases (nat_beq j i)) [
  | inl same ↦
      let gone : get m i ≡ none = get_below (j + 1) m hi i bs (ground (arith, nat_beq_iff j i)) in
      let rest = drop_ref_other name (j + 1) m hi i bs (λ d k. absurd (ground arith)) in
      ground (arith, h e, text_beq_iff e.trigger name)
  | inr other ↦
      let rest = drop_ref_other name (j + 1) m hi i bs (λ d k. h d (ground arith)) in ground arith
]

-- The handlers up to the first that throws, with this one.
abbrev pub through_throw : (ℕ → Bool) → List ℕ → List ℕ
through_throw throws [] = []
through_throw throws (h ∷ hs) =
    let rest = through_throw throws hs in if throws h then h ∷ [] else h ∷ rest

abbrev pub some_throws : (ℕ → Bool) → List ℕ → Bool
some_throws throws [] = false
some_throws throws (h ∷ hs) = throws h || some_throws throws hs
