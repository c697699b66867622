-- ===== src/PubSub/Iterator/Answers.antt =====
-- The answers to the calls of `next` in a run of the iterator.
use mathlib.Core.List.{append-nil}
use elysia_nest.Base.{
  ℕ, ◌≤◌, ◌≡◌, ◌⊎◌, refl, sym, ap, ◌∙◌, subst, inl, inr, Bool, true, false, Option, none, some,
  List, [], ◌∷◌, ◌++◌, if◌then◌else◌, length, arith, Bool-cases, nat_eq,
}
use elysia_nest.PubSub.Iterator.{
  Subscribing, pending, settled, Parked, asks, closes, Settled, PubSubAsyncIterator, max_queue_size,
  arm_idle_timer, push_value, teardown, resume, resume_each, after_subscribing, next, return_,
  idle_fires, new_iterator, subscribe_all, first_error, fulfilled_ids, roll_back,
}
use elysia_nest.PubSub.Iterator.Order.{
  callers, values, asked_in, Ordered, Ordered-teardown, Ordered-take_next, Ordered-reject,
}
use elysia_nest.PubSub.Iterator.Messages.{Ordered-push_value, Ordered-wait}
use elysia_nest.PubSub.Iterator.Run.{
  Run, starts, asks_next, receives, subscribed, returns, idles, Keeps, Keeps-push_value,
  Keeps-resume, Keeps-resume_each,
}

-- What waits for the subscriptions waits in `parked`, and only while they are under way; after
-- they failed, nothing is listened to.
pub record IsValid (asked pushed : List ℕ) (s : PubSubAsyncIterator) : Type 0 where
  pub ordered : Ordered asked pushed s.parked s
  pub quiet : (error : Option ℕ) → s.subscribing ≡ settled error → s.parked ≡ []
  pub broken : (e : ℕ) → s.subscribing ≡ settled (some e) → s.listening ≡ false

-- A state that differs in none of the queues, and the same calls waiting.
Ordered-fields :
    (a p : List ℕ) (ws vs : List Parked) (s t : PubSubAsyncIterator)
    → asked_in vs ≡ asked_in ws
    → (t.answers ≡ s.answers)
      × (t.pull_queue ≡ s.pull_queue)
      × (t.push_queue ≡ s.push_queue)
      × (t.listening ≡ s.listening)
    → Ordered a p ws s
    → Ordered a p vs t
Ordered-fields a p ws vs s t waits (answers, pull, push, listens) v = record {
  order = rw (answers, pull, waits) v.order;
  one_empty = rw (pull, push) v.one_empty;
  size = rw push v.size;
  bounded = rw push v.bounded;
  closed = rw (pull, push, listens) v.closed;
  delivered = rw (answers, push, listens) v.delivered;
}

abbrev Failed : Option ℕ → PubSubAsyncIterator → Type 0
Failed error s = (e : ℕ) → error ≡ some e → s.listening ≡ false

Ordered-resume :
    (a p : List ℕ) (error : Option ℕ) (s : PubSubAsyncIterator) (w : Parked) (ws : List Parked)
    → Failed error s
    → Ordered a p (w ∷ ws) s
    → Ordered a p ws (resume error s w)
unfolding resume
Ordered-resume a p none s (asks r) ws off v = Ordered-take_next a p ws s r v
Ordered-resume a p (some e) s (asks r) ws off v = Ordered-reject a p ws s r e (off e refl) v
Ordered-resume a p none s closes ws off v =
    Ordered-teardown a p ws s
      (Ordered-fields a p (closes ∷ ws) ws s s refl (refl, refl, refl, refl) v)
Ordered-resume a p (some e) s closes ws off v =
    Ordered-teardown a p ws s
      (Ordered-fields a p (closes ∷ ws) ws s s refl (refl, refl, refl, refl) v)

Ordered-resume_each :
    (a p : List ℕ) (error : Option ℕ) (s : PubSubAsyncIterator) (ws : List Parked)
    → Failed error s
    → Ordered a p ws s
    → Ordered a p [] (resume_each error s ws)
unfolding resume_each
Ordered-resume_each a p error s [] off v = v
Ordered-resume_each a p error s (w ∷ ws) off v =
    let (x, y, closed) = Keeps-resume error s w in
    Ordered-resume_each a p error (resume error s w) ws (λ e h. closed (off e h))
      (Ordered-resume a p error s w ws off v)

-- A state in which nothing is parked and whose `subscribePromise` has settled.
IsValid-settled :
    (a p : List ℕ) (error : Option ℕ) (s t : PubSubAsyncIterator)
    → Keeps s t
    → s.subscribing ≡ settled error
    → s.parked ≡ []
    → Failed error s
    → Ordered a p [] t
    → IsValid a p t
IsValid-settled a p error s t (x, y, closed) done none_parked off v = record {
  ordered = subst (λ ws. Ordered a p ws t) (sym (y ∙ none_parked)) v;
  quiet = λ e h. y ∙ none_parked;
  broken = λ e h. closed (off e (ground arith));
}

IsValid-after_subscribing :
    (a p : List ℕ) (o : Subscribing) (s : PubSubAsyncIterator) (w : Parked)
    → s.subscribing ≡ o
    → IsValid a p s
    → IsValid (a ++ asked_in (w ∷ [])) p (after_subscribing o s w)
IsValid-after_subscribing a p pending s w same v = record {
  ordered =
      Ordered-fields _ p _ _ s _ refl (refl, refl, refl, refl)
        (Ordered-wait a p s.parked w s v.ordered);
  quiet = λ e h. absurd (ground arith);
  broken = λ e h. absurd (ground arith);
}
IsValid-after_subscribing a p (settled error) s w same v =
    let none_parked = v.quiet error same in
    let off : Failed error s = λ e h. v.broken e (ground arith) in
    IsValid-settled _ p error s (resume error s w) (Keeps-resume error s w) same none_parked off (
      Ordered-resume _ p error s w [] off
        (Ordered-wait a p [] w s (subst (λ ws. Ordered a p ws s) none_parked v.ordered)))

IsValid-return_ : (a p : List ℕ) (s : PubSubAsyncIterator) → IsValid a p s → IsValid a p (return_ s)
unfolding return_
IsValid-return_ a p s v =
    subst (λ l. IsValid l p (return_ s)) (append-nil a)
      (IsValid-after_subscribing a p s.subscribing (record s { idle_timer = false }) closes refl
        (record {
          ordered =
              Ordered-fields a p s.parked s.parked s _ refl (refl, refl, refl, refl) v.ordered;
          quiet = v.quiet;
          broken = v.broken;
        }))

Keeps-roll_back :
    (error : Option ℕ) (s : PubSubAsyncIterator)
    → ((roll_back error s).subscribing ≡ s.subscribing) × Failed error (roll_back error s)
unfolding teardown
Keeps-roll_back none s = (refl, λ e h. absurd (ground arith))
Keeps-roll_back (some e) s = (refl, λ d h. refl)

Ordered-roll_back :
    (a p : List ℕ) (ws : List Parked) (error : Option ℕ) (s : PubSubAsyncIterator)
    → Ordered a p ws s
    → Ordered a p ws (roll_back error s)
Ordered-roll_back a p ws none s v = v
Ordered-roll_back a p ws (some e) s v = Ordered-teardown a p ws s v

IsValid-subscribe_all :
    (a p : List ℕ) (s : PubSubAsyncIterator) (results : List Settled)
    → IsValid a p s
    → IsValid a p (subscribe_all s results)
unfolding subscribe_all
IsValid-subscribe_all a p s results v =
    let error = first_error results in
    let s₁ : PubSubAsyncIterator = record s { subscription_ids = some (fulfilled_ids results) } in
    let s₂ : PubSubAsyncIterator = record (roll_back error s₁) {
      subscribing = settled error;
      parked = [];
    } in
    let (same, off) = Keeps-roll_back error s₁ in
    IsValid-settled a p error s₂ (resume_each error s₂ s.parked)
      (Keeps-resume_each error s₂ s.parked) refl refl off
      (Ordered-resume_each a p error s₂ s.parked off (
        Ordered-fields a p s.parked s.parked (roll_back error s₁) s₂ refl (refl, refl, refl, refl)
          (Ordered-roll_back a p s.parked error s₁
            (Ordered-fields a p s.parked s.parked s s₁ refl (refl, refl, refl, refl) v.ordered))))

IsValid-push_value :
    (a p : List ℕ) (s : PubSubAsyncIterator) (x : ℕ)
    → IsValid a p s
    → IsValid a (p ++ x ∷ []) (push_value s x)
IsValid-push_value a p s x v =
    let (same, waits, closed) = Keeps-push_value s x in
    record {
      ordered =
          subst (λ ws. Ordered a (p ++ x ∷ []) ws (push_value s x)) (sym waits)
            (Ordered-push_value a p s.parked s x v.ordered);
      quiet = λ e h. waits ∙ v.quiet e (sym same ∙ h);
      broken = λ e h. closed (v.broken e (sym same ∙ h));
    }

IsValid-new : (t : ℕ) → IsValid [] [] (new_iterator t)
unfolding new_iterator arm_idle_timer
IsValid-new t = record {
  ordered = record {
    order = refl;
    one_empty = inl refl;
    size = omega arith;
    bounded = omega arith;
    closed = λ h. (refl, refl);
    delivered = λ on few. refl;
  };
  quiet = λ e h. refl;
  broken = λ e h. absurd (ground arith);
}

module _ {t : ℕ} where
  IsValid-Run : {a p : List ℕ} {s : PubSubAsyncIterator} → Run t a p s → IsValid a p s
  unfolding next idle_fires
  IsValid-Run starts = IsValid-new t
  IsValid-Run (asks_next {a} {p} {s} r run) =
      IsValid-after_subscribing a p s.subscribing s (asks r) refl (IsValid-Run run)
  IsValid-Run (receives {a} {p} {s} x run) = IsValid-push_value a p s x (IsValid-Run run)
  IsValid-Run (subscribed {a} {p} {s} results h run) =
      IsValid-subscribe_all a p s results (IsValid-Run run)
  IsValid-Run (returns {a} {p} {s} run) = IsValid-return_ a p s (IsValid-Run run)
  IsValid-Run (idles {a} {p} {s} run) = elim (Bool-cases s.idle_timer) [
    | inl armed ↦
        subst (λ (b : Bool). IsValid a p (if b then return_ s else s)) (sym armed)
          (IsValid-return_ a p s (IsValid-Run run))
    | inr idle ↦
        subst (λ (b : Bool). IsValid a p (if b then return_ s else s)) (sym idle) (IsValid-Run run)
  ]

  -- In every run the calls of `next` are answered in the order in which they were made: those
  -- with an answer come first, then those that wait for a message, then those that wait for the
  -- subscriptions, and no call is lost or answered twice.
  pub calls_answered_in_order :
      {a p : List ℕ} {s : PubSubAsyncIterator}
      → Run t a p s
      → callers s.answers ++ (s.pull_queue ++ asked_in s.parked) ≡ a
  calls_answered_in_order run = (IsValid-Run run).ordered.order

  -- In every run at most one of the two queues has entries, and at most 1000 messages are kept.
  pub queues_bounded :
      {a p : List ℕ} {s : PubSubAsyncIterator}
      → Run t a p s
      → ((s.pull_queue ≡ []) ⊎ (s.push_queue ≡ [])) × (length s.push_queue ≤ max_queue_size)
  queues_bounded run = let v = (IsValid-Run run).ordered in (v.one_empty, v.size)

  -- As long as the iterator listens and at most 1000 messages came in, the messages that were
  -- delivered and then those that are kept are all messages, in the order in which they came in.
  pub messages_in_order :
      {a p : List ℕ} {s : PubSubAsyncIterator}
      → Run t a p s
      → s.listening ≡ true
      → length p ≤ max_queue_size
      → values s.answers ++ s.push_queue ≡ p
  messages_in_order run = (IsValid-Run run).ordered.delivered

  -- Once the subscriptions have settled and the iterator no longer listens, every call of `next`,
  -- made before or after it closed, has its answer.
  pub closed_answers_all :
      {a p : List ℕ} {s : PubSubAsyncIterator}
      → Run t a p s
      → (error : Option ℕ) → s.subscribing ≡ settled error
      → s.listening ≡ false
      → callers s.answers ≡ a
  closed_answers_all {s = s} run error done off =
      let v = IsValid-Run run in
      let (no_pull, no_push) = v.ordered.closed off in
      sym (append-nil (callers s.answers))
      ∙ sym (ap (λ ws. callers s.answers ++ asked_in ws) (v.quiet error done))
      ∙ sym (ap (λ l. callers s.answers ++ (l ++ asked_in s.parked)) no_pull)
      ∙ v.ordered.order
