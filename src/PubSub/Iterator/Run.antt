-- ===== src/PubSub/Iterator/Run.antt =====
-- Every run of the iterator, from its constructor on.
use elysia_nest.Base.{
  ℕ, ◌≡◌, refl, ◌∙◌, inl, inr, false, Option, none, some, List, [], ◌∷◌, ◌++◌, arith, Bool-cases,
  nat_eq,
}
use elysia_nest.PubSub.Iterator.{
  pending, Parked, asks, closes, Settled, PubSubAsyncIterator, take_from, take_next, hand_over,
  arm_idle_timer, push_value, teardown, resume, resume_each, next, return_, idle_fires,
  new_iterator, subscribe_all,
}

-- A run with the calls of `next` and the messages that it had so far.
pub data Run (idle_timeout_ms : ℕ) : List ℕ → List ℕ → PubSubAsyncIterator → Type 0 where
  starts : Run idle_timeout_ms [] [] (new_iterator idle_timeout_ms)
  asks_next :
      {a p : List ℕ} {s : PubSubAsyncIterator} (r : ℕ)
      → Run idle_timeout_ms a p s
      → Run idle_timeout_ms (a ++ r ∷ []) p (next s r)
  receives :
      {a p : List ℕ} {s : PubSubAsyncIterator} (x : ℕ)
      → Run idle_timeout_ms a p s
      → Run idle_timeout_ms a (p ++ x ∷ []) (push_value s x)
  subscribed :
      {a p : List ℕ} {s : PubSubAsyncIterator} (results : List Settled)
      → s.subscribing ≡ pending
      → Run idle_timeout_ms a p s
      → Run idle_timeout_ms a p (subscribe_all s results)
  returns :
      {a p : List ℕ} {s : PubSubAsyncIterator}
      → Run idle_timeout_ms a p s
      → Run idle_timeout_ms a p (return_ s)
  idles :
      {a p : List ℕ} {s : PubSubAsyncIterator}
      → Run idle_timeout_ms a p s
      → Run idle_timeout_ms a p (idle_fires s)

-- The fields that the queue operations leave.
abbrev pub Keeps : PubSubAsyncIterator → PubSubAsyncIterator → Type 0
Keeps s t =
    (t.subscribing ≡ s.subscribing)
    × (t.parked ≡ s.parked)
    × (s.listening ≡ false → t.listening ≡ false)

Keeps-take_from : (s : PubSubAsyncIterator) (r : ℕ) (q : List ℕ) → Keeps s (take_from s r q)
Keeps-take_from s r (x ∷ q) = (refl, refl, λ h. h)
Keeps-take_from s r [] = elim (Bool-cases s.listening) [
  | inl on ↦ (ground arith, ground arith, λ h. absurd (ground arith))
  | inr off ↦ (ground arith, ground arith, λ h. ground arith)
]

Keeps-hand_over :
    (s : PubSubAsyncIterator) (x : ℕ) (q : List ℕ)
    → ((hand_over s x q).subscribing ≡ s.subscribing)
      × ((hand_over s x q).parked ≡ s.parked)
      × ((hand_over s x q).listening ≡ s.listening)
Keeps-hand_over s x [] = (refl, refl, refl)
Keeps-hand_over s x (r ∷ rs) = (refl, refl, refl)

pub Keeps-push_value : (s : PubSubAsyncIterator) (x : ℕ) → Keeps s (push_value s x)
unfolding push_value arm_idle_timer
Keeps-push_value s x =
    let (a, b, c) = Keeps-hand_over (arm_idle_timer s) x s.pull_queue in
    elim (Bool-cases s.listening) [
      | inl on ↦ (ground arith, ground arith, λ h. absurd (ground arith))
      | inr off ↦ (ground arith, ground arith, λ h. ground arith)
    ]

pub Keeps-resume :
    (error : Option ℕ) (s : PubSubAsyncIterator) (w : Parked) → Keeps s (resume error s w)
unfolding resume take_next teardown
Keeps-resume none s (asks r) = Keeps-take_from s r s.push_queue
Keeps-resume (some e) s (asks r) = (refl, refl, λ h. h)
Keeps-resume none s closes = (refl, refl, λ h. refl)
Keeps-resume (some e) s closes = (refl, refl, λ h. refl)

pub Keeps-resume_each :
    (error : Option ℕ) (s : PubSubAsyncIterator) (ws : List Parked)
    → Keeps s (resume_each error s ws)
unfolding resume_each
Keeps-resume_each error s [] = (refl, refl, λ h. h)
Keeps-resume_each error s (w ∷ ws) =
    let (a, b, c) = Keeps-resume error s w in
    let (d, e, f) = Keeps-resume_each error (resume error s w) ws in (d ∙ a, e ∙ b, λ h. f (c h))
