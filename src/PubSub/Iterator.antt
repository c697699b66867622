-- ===== src/PubSub/Iterator.antt =====
-- `PubSubAsyncIterator` of packages/graphql-pubsub/src/pubsub-async-iterator.ts. A call of `next`
-- is known by a number, and `answers` lists how the promises of the calls settled, in order. What
-- awaits `subscribePromise` is parked until it settles. A step is what one event of the program
-- runs: a call, a message, the end of the subscriptions, or the idle timer.
pub mod Order
pub mod Messages
pub mod Run
pub mod Answers
pub mod Release
use elysia_nest.Base.{
  ℕ, ◌+◌, Bool, true, false, not, Option, none, some, List, [], ◌∷◌, ◌++◌, map, nat_eq, ◌==◌,
  if◌then◌else◌, leb, length,
}

-- `IteratorResult`, or a rejection.
pub data Answer : Type 0 where
  yields : ℕ → Answer
  done : Answer
  rejects : ℕ → Answer

-- `subscribePromise`: still pending, or settled, perhaps with an error.
pub data Subscribing : Type 0 where
  pending : Subscribing
  settled : Option ℕ → Subscribing

-- What awaits `subscribePromise`: a call of `next`, or a call of `return` or `throw`.
pub data Parked : Type 0 where
  asks : ℕ → Parked
  closes : Parked

-- An entry of what `Promise.allSettled` gives.
pub data Settled : Type 0 where
  fulfilled rejected : ℕ → Settled

-- `unsubscribed` lists the numbers for which the engine's `unsubscribe` was called.
pub record PubSubAsyncIterator : Type 0 where
  pub subscription_ids : Option (List ℕ)
  pub pull_queue : List ℕ
  pub push_queue : List ℕ
  pub listening : Bool
  pub subscribing : Subscribing
  pub idle_timeout_ms : ℕ
  pub idle_timer : Bool
  pub parked : List Parked
  pub answers : List (ℕ × Answer)
  pub unsubscribed : List ℕ

abbrev pub max_queue_size : ℕ
max_queue_size = 1000

unfoldable pub arm_idle_timer : PubSubAsyncIterator → PubSubAsyncIterator
arm_idle_timer s = record s { idle_timer = if s.idle_timeout_ms == 0 then s.idle_timer else true }

-- The constructor; its subscriptions are under way.
unfoldable pub new_iterator : ℕ → PubSubAsyncIterator
unfolding arm_idle_timer
new_iterator idle_timeout_ms = arm_idle_timer (record {
  subscription_ids = none;
  pull_queue = [];
  push_queue = [];
  listening = true;
  subscribing = pending;
  idle_timeout_ms = idle_timeout_ms;
  idle_timer = false;
  parked = [];
  answers = [];
  unsubscribed = [];
})

-- `Array.shift`
abbrev pub shifted : List ℕ → List ℕ
shifted [] = []
shifted (x ∷ xs) = xs

abbrev pub answer : PubSubAsyncIterator → ℕ → Answer → PubSubAsyncIterator
answer s r a = record s { answers = s.answers ++ (r, a) ∷ [] }

-- `next` behind its `await`.
abbrev pub take_from : PubSubAsyncIterator → ℕ → List ℕ → PubSubAsyncIterator
take_from s r (v ∷ vs) = answer (record s { push_queue = vs }) r (yields v)
take_from s r [] =
    if s.listening then record s { pull_queue = s.pull_queue ++ r ∷ [] } else answer s r done

unfoldable pub take_next : PubSubAsyncIterator → ℕ → PubSubAsyncIterator
take_next s r = take_from s r s.push_queue

abbrev pub enqueue : List ℕ → ℕ → List ℕ
enqueue q v = (if leb max_queue_size (length q) then shifted q else q) ++ v ∷ []

-- The two paths of `pushValue`: a call waits, or none does.
abbrev pub hand_over : PubSubAsyncIterator → ℕ → List ℕ → PubSubAsyncIterator
hand_over s v (r ∷ rs) = answer (record s { pull_queue = rs }) r (yields v)
hand_over s v [] = record s { push_queue = enqueue s.push_queue v }

unfoldable pub push_value : PubSubAsyncIterator → ℕ → PubSubAsyncIterator
unfolding arm_idle_timer
push_value s v = if not s.listening then s else hand_over (arm_idle_timer s) v s.pull_queue

abbrev pub ids_or_nil : Option (List ℕ) → List ℕ
ids_or_nil none = []
ids_or_nil (some ids) = ids

abbrev pub done_answers : List ℕ → List (ℕ × Answer)
done_answers [] = []
done_answers (r ∷ rs) = (r, done) ∷ done_answers rs

-- Each `unsubscribe` stands in its own `try`, so all of them are called.
unfoldable pub teardown : PubSubAsyncIterator → PubSubAsyncIterator
teardown s = record s {
  subscription_ids = none;
  unsubscribed = s.unsubscribed ++ ids_or_nil s.subscription_ids;
  listening = false;
  answers = s.answers ++ done_answers s.pull_queue;
  pull_queue = [];
  push_queue = [];
}

-- What awaited `subscribePromise` goes on; `error` is its error, if it has one.
unfoldable pub resume : Option ℕ → PubSubAsyncIterator → Parked → PubSubAsyncIterator
resume none s (asks r) = take_next s r
resume (some e) s (asks r) = answer s r (rejects e)
resume error s closes = teardown s

unfoldable pub resume_each : Option ℕ → PubSubAsyncIterator → List Parked → PubSubAsyncIterator
resume_each error s [] = s
resume_each error s (w ∷ ws) = resume_each error (resume error s w) ws

abbrev pub park : PubSubAsyncIterator → Parked → PubSubAsyncIterator
park s w = record s { parked = s.parked ++ w ∷ [] }

-- `await this.subscribePromise`, and what follows.
abbrev pub after_subscribing : Subscribing → PubSubAsyncIterator → Parked → PubSubAsyncIterator
after_subscribing pending s w = park s w
after_subscribing (settled error) s w = resume error s w

unfoldable pub next : PubSubAsyncIterator → ℕ → PubSubAsyncIterator
next s r = after_subscribing s.subscribing s (asks r)

-- `return()`, and `throw(error)`, which differ in the caller's own promise alone.
unfoldable pub return_ : PubSubAsyncIterator → PubSubAsyncIterator
return_ s = after_subscribing s.subscribing (record s { idle_timer = false }) closes

-- The idle timer fires, if it is armed.
unfoldable pub idle_fires : PubSubAsyncIterator → PubSubAsyncIterator
unfolding return_
idle_fires s = if s.idle_timer then return_ s else s

abbrev pub fulfilled_ids : List Settled → List ℕ
fulfilled_ids [] = []
fulfilled_ids (fulfilled i ∷ rs) = i ∷ fulfilled_ids rs
fulfilled_ids (rejected e ∷ rs) = fulfilled_ids rs

abbrev pub first_error : List Settled → Option ℕ
first_error [] = none
first_error (fulfilled i ∷ rs) = first_error rs
first_error (rejected e ∷ rs) = some e

abbrev pub roll_back : Option ℕ → PubSubAsyncIterator → PubSubAsyncIterator
roll_back none s = s
roll_back (some e) s = teardown s

-- `subscribeAll` behind its `await`, and then what awaited its promise.
unfoldable pub subscribe_all : PubSubAsyncIterator → List Settled → PubSubAsyncIterator
unfolding teardown
subscribe_all s results =
    let error = first_error results in
    let s' = roll_back error (record s { subscription_ids = some (fulfilled_ids results) }) in
    resume_each error (record s' { subscribing = settled error; parked = [] }) s.parked
