-- ===== src/PubSub/Redis/Removal.antt =====
-- What leaves the two maps of `RedisPubSub` together keeps them coherent.
use elysia_nest.Base.{
  ℕ, ◌≡◌, ◌≢◌, refl, sym, ◌∙◌, inl, inr, Bool, true, false, Option, none, some, List, [], ◌∷◌, ◌++◌,
  get, delete, get-delete, get-put, Text, text_eq, text_beq_iff, nat_eq, ◌==◌, if◌then◌else◌, All,
  arith, Bool-cases, Option-cases,
}
use elysia_nest.PubSub.Redis.{
  SubscriptionEvent, Waiter, RedisPubSub, refs_or_nil, drop_ref, store_refs, drop_stored, finish,
  rollback_subscription, resume,
}
use elysia_nest.PubSub.Redis.Coherent.{
  Events, Rising, ids_for, Agrees, IsCoherent, Rising-delete, ids_for-delete, drop_ref_other,
}

pub All-append_one {ℓ κ} :
    {A : Type ℓ} (P : A → Type κ) (xs : List A) (y : A) → All P xs → P y → All P (xs ++ y ∷ [])
All-append_one P [] y h k = (k, tt)
All-append_one P (x ∷ xs) y (h, hs) k = (h, All-append_one P xs y hs k)

pub Agrees-delete :
    (m : Events) (next i : ℕ) (w : Waiter) → Agrees m next w → Agrees (delete m i) next w
Agrees-delete m next i w a = record {
  old = a.old;
  same = λ e h. a.same e (ground (arith, get-delete m i w.id));
}

All-Agrees-delete :
    (m : Events) (next i : ℕ) (ws : List Waiter)
    → All (Agrees m next) ws
    → All (Agrees (delete m i) next) ws
All-Agrees-delete m next i [] a = tt
All-Agrees-delete m next i (w ∷ ws) (a, more) =
    (Agrees-delete m next i w a, All-Agrees-delete m next i ws more)

-- The lists of the channels after the number `i` of channel `name` is taken out.
refs-store_refs :
    (s : RedisPubSub) (name other : Text) (l : List ℕ)
    → refs_or_nil (get (store_refs s name l).subs_refs_map other)
      ≡ (if name == other then l else refs_or_nil (get s.subs_refs_map other))
refs-store_refs s name other [] = ground (arith, get-delete s.subs_refs_map name other)
refs-store_refs s name other (r ∷ l) = ground (arith, get-put s.subs_refs_map name (r ∷ l) other)

nonempty-store_refs :
    (s : RedisPubSub) (name : Text) (l : List ℕ)
    → ((other : Text) → get s.subs_refs_map other ≢ some [])
    → (other : Text) → get (store_refs s name l).subs_refs_map other ≢ some []
nonempty-store_refs s name [] h other k =
    h other (ground (arith, get-delete s.subs_refs_map name other))
nonempty-store_refs s name (r ∷ l) h other k =
    h other (ground (arith, get-put s.subs_refs_map name (r ∷ l) other))

IsCoherent-store_refs :
    (s : RedisPubSub) (name : Text) (l : List ℕ)
    → Rising 0 s.subscription_map s.current_subscription_id
    → ((other : Text)
        → (if name == other then l else refs_or_nil (get s.subs_refs_map other))
          ≡ ids_for other s.subscription_map)
    → ((other : Text) → get s.subs_refs_map other ≢ some [])
    → All (Agrees s.subscription_map s.current_subscription_id) s.waiters
    → IsCoherent (store_refs s name l)
IsCoherent-store_refs s name [] b r n w = record {
  rising = b;
  refs = λ other. refs-store_refs s name other [] ∙ r other;
  nonempty = nonempty-store_refs s name [] n;
  waiting = w;
}
IsCoherent-store_refs s name (i ∷ l) b r n w = record {
  rising = b;
  refs = λ other. refs-store_refs s name other (i ∷ l) ∙ r other;
  nonempty = nonempty-store_refs s name (i ∷ l) n;
  waiting = w;
}

removed_refs :
    (s : RedisPubSub) (id : ℕ) (name : Text) (refs : List ℕ)
    → ((e : SubscriptionEvent) → get s.subscription_map id ≡ some e → e.trigger ≡ name)
    → refs ≡ refs_or_nil (get s.subs_refs_map name)
    → IsCoherent s
    → (other : Text)
    → (if name == other then drop_ref id refs else refs_or_nil (get s.subs_refs_map other))
      ≡ ids_for other (delete s.subscription_map id)
removed_refs s id name refs same stored v other =
    let gone = ids_for-delete other 0 s.subscription_map s.current_subscription_id id v.rising in
    elim (Bool-cases (name == other)) [
      | inl here ↦ ground (arith, v.refs name, text_beq_iff name other)
      | inr there ↦
          let kept =
            drop_ref_other other 0 s.subscription_map s.current_subscription_id id v.rising
              (λ e h k. cc ((text_beq_iff name other).1 (sym (same e h) ∙ k))) in
          ground (arith, v.refs other)
    ]

-- A subscription to `name`, or one that is gone, leaves both maps.
pub IsCoherent-remove :
    (s : RedisPubSub) (id : ℕ) (name : Text) (refs : List ℕ)
    → ((e : SubscriptionEvent) → get s.subscription_map id ≡ some e → e.trigger ≡ name)
    → refs ≡ refs_or_nil (get s.subs_refs_map name)
    → IsCoherent s
    → IsCoherent (
        store_refs
          (record s { subscription_map = delete s.subscription_map id })
          name
          (drop_ref id refs))
IsCoherent-remove s id name refs same stored v =
    IsCoherent-store_refs (record s { subscription_map = delete s.subscription_map id }) name
      (drop_ref id refs) (Rising-delete 0 s.subscription_map s.current_subscription_id id v.rising)
      (removed_refs s id name refs same stored v) v.nonempty
      (All-Agrees-delete s.subscription_map s.current_subscription_id id s.waiters v.waiting)

IsCoherent-rollback_subscription :
    (s : RedisPubSub) (w : Waiter)
    → Agrees s.subscription_map s.current_subscription_id w
    → IsCoherent s
    → IsCoherent (rollback_subscription s w.id w.trigger)
unfolding rollback_subscription
IsCoherent-rollback_subscription s w a v = elim (Option-cases (get s.subs_refs_map w.trigger)) [
  | inl none_stored ↦ rw none_stored (record {
    rising = Rising-delete 0 s.subscription_map s.current_subscription_id w.id v.rising;
    refs = λ other. ground (
      arith,
      removed_refs s w.id w.trigger [] a.same (ground arith) v other,
      text_beq_iff w.trigger other,
    );
    nonempty = v.nonempty;
    waiting =
        All-Agrees-delete s.subscription_map s.current_subscription_id w.id s.waiters v.waiting;
  })
  | inr (refs, stored) ↦ rw stored (IsCoherent-remove s w.id w.trigger refs a.same (ground arith) v)
]

IsCoherent-finish :
    (b : Bool) (name : Text) (s : RedisPubSub) → IsCoherent s → IsCoherent (finish b name s)
IsCoherent-finish true name s v = record {
  rising = v.rising;
  refs = v.refs;
  nonempty = v.nonempty;
  waiting = v.waiting;
}
IsCoherent-finish false name s v = v

pub IsCoherent-resume :
    (fulfilled : Bool) (w : Waiter) (s : RedisPubSub)
    → Agrees s.subscription_map s.current_subscription_id w
    → IsCoherent s
    → IsCoherent (resume fulfilled w s)
unfolding resume
IsCoherent-resume true w s a v = IsCoherent-finish w.issuer w.trigger s v
IsCoherent-resume false w s a v =
    IsCoherent-finish w.issuer w.trigger (rollback_subscription s w.id w.trigger)
      (IsCoherent-rollback_subscription s w a v)

-- What a continuation leaves of the subscriptions.
abbrev pub after_resume : Bool → ℕ → Events → Events
after_resume fulfilled id m = if fulfilled then m else delete m id

abbrev Leaves : RedisPubSub → Events → ℕ → Type 0
Leaves s m next = (s.subscription_map ≡ m) × (s.current_subscription_id ≡ next)

Leaves-store_refs :
    (s : RedisPubSub) (name : Text) (l : List ℕ)
    → Leaves (store_refs s name l) s.subscription_map s.current_subscription_id
Leaves-store_refs s name [] = (refl, refl)
Leaves-store_refs s name (r ∷ l) = (refl, refl)

Leaves-drop_stored :
    (s : RedisPubSub) (id : ℕ) (name : Text) (o : Option (List ℕ))
    → Leaves (drop_stored s id name o) s.subscription_map s.current_subscription_id
Leaves-drop_stored s id name none = (refl, refl)
Leaves-drop_stored s id name (some refs) = Leaves-store_refs s name (drop_ref id refs)

Leaves-finish :
    (b : Bool) (name : Text) (s : RedisPubSub)
    → Leaves (finish b name s) s.subscription_map s.current_subscription_id
Leaves-finish true name s = (refl, refl)
Leaves-finish false name s = (refl, refl)

pub Leaves-resume :
    (fulfilled : Bool) (w : Waiter) (s : RedisPubSub)
    → Leaves
        (resume fulfilled w s)
        (after_resume fulfilled w.id s.subscription_map)
        s.current_subscription_id
unfolding resume rollback_subscription
Leaves-resume true w s = Leaves-finish w.issuer w.trigger s
Leaves-resume false w s =
    let (m, n) =
      Leaves-drop_stored (record s { subscription_map = delete s.subscription_map w.id }) w.id
        w.trigger (get s.subs_refs_map w.trigger) in
    let (m', n') = Leaves-finish w.issuer w.trigger (rollback_subscription s w.id w.trigger) in
    (m' ∙ m, n' ∙ n)
