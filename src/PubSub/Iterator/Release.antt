-- ===== src/PubSub/Iterator/Release.antt =====
-- The subscriptions that the engine gave to the iterator, and those that it released.
use mathlib.Core.List.{append-nil}
use elysia_nest.Base.{
  ℕ, ◌≡◌, refl, sym, ap, ◌∙◌, subst, inl, inr, Bool, true, false, Option, none, some, List, [], ◌∷◌,
  ◌++◌, if◌then◌else◌, arith, Bool-cases, nat_eq,
}
use elysia_nest.PubSub.Iterator.{
  Subscribing, pending, settled, Parked, asks, closes, Settled, PubSubAsyncIterator, ids_or_nil,
  take_from, take_next, hand_over, arm_idle_timer, push_value, teardown, resume, resume_each,
  after_subscribing, next, return_, idle_fires, new_iterator, subscribe_all, first_error,
  fulfilled_ids, roll_back,
}
use elysia_nest.PubSub.Iterator.Run.{
  Run, starts, asks_next, receives, subscribed, returns, idles, Keeps-push_value, Keeps-resume,
  Keeps-resume_each,
}

-- The numbers that the engine's `subscribe` gave in a run.
abbrev pub given_ids : {t : ℕ} {a p : List ℕ} {s : PubSubAsyncIterator} → Run t a p s → List ℕ
given_ids starts = []
given_ids (asks_next r run) = given_ids run
given_ids (receives x run) = given_ids run
given_ids (subscribed results h run) = given_ids run ++ fulfilled_ids results
given_ids (returns run) = given_ids run
given_ids (idles run) = given_ids run

-- Each number was released or is still held, and none is held after the iterator closed.
pub record Accounts (given : List ℕ) (s : PubSubAsyncIterator) : Type 0 where
  pub conserved : s.unsubscribed ++ ids_or_nil s.subscription_ids ≡ given
  pub released : s.listening ≡ false → s.subscription_ids ≡ none

Accounts-teardown : (g : List ℕ) (s : PubSubAsyncIterator) → Accounts g s → Accounts g (teardown s)
unfolding teardown
Accounts-teardown g s v = record {
  conserved = append-nil (s.unsubscribed ++ ids_or_nil s.subscription_ids) ∙ v.conserved;
  released = λ h. refl;
}

-- The fields that tell of subscriptions are the same.
abbrev Same : PubSubAsyncIterator → PubSubAsyncIterator → Type 0
Same s t =
    (t.unsubscribed ≡ s.unsubscribed)
    × (t.subscription_ids ≡ s.subscription_ids)
    × (t.listening ≡ s.listening)

Accounts-Same : (g : List ℕ) (s t : PubSubAsyncIterator) → Same s t → Accounts g s → Accounts g t
Accounts-Same g s t (a, b, c) v = record {
  conserved = rw (a, b) v.conserved;
  released = rw (b, c) v.released;
}

Same-take_from : (s : PubSubAsyncIterator) (r : ℕ) (q : List ℕ) → Same s (take_from s r q)
Same-take_from s r (x ∷ q) = (refl, refl, refl)
Same-take_from s r [] = elim (Bool-cases s.listening) [
  | inl on ↦ (ground arith, ground arith, ground arith)
  | inr off ↦ (ground arith, ground arith, ground arith)
]

Same-hand_over : (s : PubSubAsyncIterator) (x : ℕ) (q : List ℕ) → Same s (hand_over s x q)
Same-hand_over s x [] = (refl, refl, refl)
Same-hand_over s x (r ∷ rs) = (refl, refl, refl)

Same-push_value : (s : PubSubAsyncIterator) (x : ℕ) → Same s (push_value s x)
unfolding push_value arm_idle_timer
Same-push_value s x =
    let (a, b, c) = Same-hand_over (arm_idle_timer s) x s.pull_queue in
    elim (Bool-cases s.listening) [
      | inl on ↦ (ground arith, ground arith, ground arith)
      | inr off ↦ (ground arith, ground arith, ground arith)
    ]

Accounts-resume :
    (g : List ℕ) (error : Option ℕ) (s : PubSubAsyncIterator) (w : Parked)
    → Accounts g s
    → Accounts g (resume error s w)
unfolding resume take_next
Accounts-resume g none s (asks r) v =
    Accounts-Same g s (take_from s r s.push_queue) (Same-take_from s r s.push_queue) v
Accounts-resume g (some e) s (asks r) v = Accounts-Same g s _ (refl, refl, refl) v
Accounts-resume g none s closes v = Accounts-teardown g s v
Accounts-resume g (some e) s closes v = Accounts-teardown g s v

Accounts-resume_each :
    (g : List ℕ) (error : Option ℕ) (s : PubSubAsyncIterator) (ws : List Parked)
    → Accounts g s
    → Accounts g (resume_each error s ws)
unfolding resume_each
Accounts-resume_each g error s [] v = v
Accounts-resume_each g error s (w ∷ ws) v =
    Accounts-resume_each g error (resume error s w) ws (Accounts-resume g error s w v)

Accounts-after_subscribing :
    (g : List ℕ) (o : Subscribing) (s : PubSubAsyncIterator) (w : Parked)
    → Accounts g s
    → Accounts g (after_subscribing o s w)
Accounts-after_subscribing g pending s w v = Accounts-Same g s _ (refl, refl, refl) v
Accounts-after_subscribing g (settled error) s w v = Accounts-resume g error s w v

Accounts-return_ : (g : List ℕ) (s : PubSubAsyncIterator) → Accounts g s → Accounts g (return_ s)
unfolding return_
Accounts-return_ g s v =
    Accounts-after_subscribing g s.subscribing (record s { idle_timer = false }) closes
      (Accounts-Same g s _ (refl, refl, refl) v)

Accounts-roll_back :
    (g : List ℕ) (error : Option ℕ) (s : PubSubAsyncIterator)
    → Accounts g s
    → Accounts g (roll_back error s)
Accounts-roll_back g none s v = v
Accounts-roll_back g (some e) s v = Accounts-teardown g s v

-- Until the subscriptions have settled, the iterator holds no number and listens.
record IsEarly (s : PubSubAsyncIterator) : Type 0 where
  holds_none : s.subscribing ≡ pending → s.subscription_ids ≡ none
  listens : s.subscribing ≡ pending → s.listening ≡ true

IsEarly-settled :
    (s t : PubSubAsyncIterator) (error : Option ℕ)
    → t.subscribing ≡ s.subscribing
    → s.subscribing ≡ settled error
    → IsEarly t
IsEarly-settled s t error same done = record {
  holds_none = λ h. absurd (ground arith);
  listens = λ h. absurd (ground arith);
}

IsEarly-after_subscribing :
    (o : Subscribing) (s : PubSubAsyncIterator) (w : Parked)
    → s.subscribing ≡ o
    → IsEarly s
    → IsEarly (after_subscribing o s w)
IsEarly-after_subscribing pending s w same v = record {
  holds_none = v.holds_none;
  listens = v.listens;
}
IsEarly-after_subscribing (settled error) s w same v =
    IsEarly-settled s (resume error s w) error (Keeps-resume error s w).0 same

IsEarly-return_ : (s : PubSubAsyncIterator) → IsEarly s → IsEarly (return_ s)
unfolding return_
IsEarly-return_ s v =
    IsEarly-after_subscribing s.subscribing (record s { idle_timer = false }) closes refl
      (record { holds_none = v.holds_none; listens = v.listens })

IsEarly-push_value : (s : PubSubAsyncIterator) (x : ℕ) → IsEarly s → IsEarly (push_value s x)
IsEarly-push_value s x v =
    let (same, waits, closed) = Keeps-push_value s x in
    let (unsubscribed, ids, listening) = Same-push_value s x in
    record {
      holds_none = λ h. ids ∙ v.holds_none (sym same ∙ h);
      listens = λ h. listening ∙ v.listens (sym same ∙ h);
    }

IsEarly-subscribe_all :
    (s : PubSubAsyncIterator) (results : List Settled) → IsEarly (subscribe_all s results)
unfolding subscribe_all
IsEarly-subscribe_all s results =
    let error = first_error results in
    let s₁ : PubSubAsyncIterator = record s { subscription_ids = some (fulfilled_ids results) } in
    let s₂ : PubSubAsyncIterator = record (roll_back error s₁) {
      subscribing = settled error;
      parked = [];
    } in
    IsEarly-settled s₂ (resume_each error s₂ s.parked) error (Keeps-resume_each error s₂ s.parked).0
      refl

Accounts-subscribe_all :
    (g : List ℕ) (s : PubSubAsyncIterator) (results : List Settled)
    → s.subscribing ≡ pending
    → IsEarly s
    → Accounts g s
    → Accounts (g ++ fulfilled_ids results) (subscribe_all s results)
unfolding subscribe_all
Accounts-subscribe_all g s results early e v =
    let error = first_error results in
    let s₁ : PubSubAsyncIterator = record s { subscription_ids = some (fulfilled_ids results) } in
    let all : s.unsubscribed ≡ g =
      sym (append-nil s.unsubscribed)
      ∙ sym (ap (λ (o : Option (List ℕ)). s.unsubscribed ++ ids_or_nil o) (e.holds_none early))
      ∙ v.conserved in
    Accounts-resume_each _ error _ s.parked (
      Accounts-Same _ (roll_back error s₁) _ (refl, refl, refl)
        (Accounts-roll_back _ error s₁ (record {
          conserved = ap (λ l. l ++ fulfilled_ids results) all;
          released = λ off. absurd (ground (arith, e.listens early));
        })))

record Ledger (g : List ℕ) (s : PubSubAsyncIterator) : Type 0 where
  accounts : Accounts g s
  early : IsEarly s

Ledger-return_ : (g : List ℕ) (s : PubSubAsyncIterator) → Ledger g s → Ledger g (return_ s)
Ledger-return_ g s v = record {
  accounts = Accounts-return_ g s v.accounts;
  early = IsEarly-return_ s v.early;
}

Ledger-Run :
    {t : ℕ} {a p : List ℕ} {s : PubSubAsyncIterator} (run : Run t a p s) → Ledger (given_ids run) s
unfolding new_iterator arm_idle_timer next idle_fires
Ledger-Run starts = record {
  accounts = record { conserved = refl; released = λ h. refl };
  early = record { holds_none = λ h. refl; listens = λ h. refl };
}
Ledger-Run (asks_next {s} r run) =
    let v = Ledger-Run run in
    record {
      accounts = Accounts-after_subscribing (given_ids run) s.subscribing s (asks r) v.accounts;
      early = IsEarly-after_subscribing s.subscribing s (asks r) refl v.early;
    }
Ledger-Run (receives {s} x run) =
    let v = Ledger-Run run in
    record {
      accounts = Accounts-Same (given_ids run) s (push_value s x) (Same-push_value s x) v.accounts;
      early = IsEarly-push_value s x v.early;
    }
Ledger-Run (subscribed {s} results h run) =
    let v = Ledger-Run run in
    record {
      accounts = Accounts-subscribe_all (given_ids run) s results h v.early v.accounts;
      early = IsEarly-subscribe_all s results;
    }
Ledger-Run (returns {s} run) = Ledger-return_ (given_ids run) s (Ledger-Run run)
Ledger-Run (idles {s} run) = elim (Bool-cases s.idle_timer) [
  | inl armed ↦
      subst (λ (b : Bool). Ledger (given_ids run) (if b then return_ s else s)) (sym armed)
        (Ledger-return_ (given_ids run) s (Ledger-Run run))
  | inr idle ↦
      subst (λ (b : Bool). Ledger (given_ids run) (if b then return_ s else s)) (sym idle)
        (Ledger-Run run)
]

-- When a run of the iterator no longer listens, the engine's `unsubscribe` was called for exactly
-- the numbers that its `subscribe` gave, in order: also where some of the subscriptions failed,
-- and where the iterator was closed before they settled.
pub closed_releases_all :
    {t : ℕ} {a p : List ℕ} {s : PubSubAsyncIterator} (run : Run t a p s)
    → s.listening ≡ false
    → s.unsubscribed ≡ given_ids run
closed_releases_all {s = s} run off =
    let v = (Ledger-Run run).accounts in
    sym (append-nil s.unsubscribed)
    ∙ sym (ap (λ (o : Option (List ℕ)). s.unsubscribed ++ ids_or_nil o) (v.released off))
    ∙ v.conserved
