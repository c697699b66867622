-- ===== src/PubSub/Tests.antt =====
-- Runs of the subscriptions and of the iterator, and the theorems on them.
use elysia_nest.Base.{
  ◌≤◌, ◌≡◌, ◌⊎◌, refl, true, false, none, some, [], ◌∷◌, ◌++◌, get, put, delete, Text, text_eq,
  ◌==◌, nat_eq, if◌then◌else◌, length, arith, has, not, ◌&&◌,
}
use elysia_nest.PubSub.Iterator
use elysia_nest.PubSub.Redis
use elysia_nest.PubSub.Redis.{
  SubscriptionEvent, RedisPubSub, Command, punsubscribes, unsubscribes, Naming, subscribe,
  subscribe_channel, settle, resume_all, rollback_subscription, unsubscribe, release_for,
  on_message, new_pubsub, call_handlers, refs_or_nil,
}
use elysia_nest.PubSub.Redis.Coherent.{IsCoherent, ids_for}
use elysia_nest.PubSub.Redis.Resume.{waits_for, rejected_subscribers_removed}
use elysia_nest.PubSub.Redis.Reachable.{
  Reachable, created, next, subscribes, settles, Reachable-IsCoherent, unsubscribe-IsCoherent,
  refs_option,
}
use elysia_nest.PubSub.Iterator.{
  PubSubAsyncIterator, pending, yields, fulfilled, settled, max_queue_size, new_iterator,
  arm_idle_timer, push_value, subscribe_all, resume_each, take_next, teardown, return_,
}
use elysia_nest.PubSub.Iterator.Release.{given_ids, closed_releases_all}
use elysia_nest.PubSub.Iterator.Order.{callers, values, asked_in}
use elysia_nest.PubSub.Iterator.Run.{Run, starts, asks_next, receives, subscribed, returns}
use elysia_nest.PubSub.Iterator.Answers.{
  calls_answered_in_order, queues_bounded, messages_in_order, closed_answers_all,
}

-- No prefix, and each trigger is its own channel.
abbrev plain_names : Naming
plain_names = record { key_prefix = []; trigger_transform = λ name pattern. name }

abbrev orders : Text
orders = b'o' ∷ []

-- Handlers 7 and 8 subscribe to one channel, and the command succeeds.
abbrev one_waits : RedisPubSub
one_waits = subscribe plain_names new_pubsub orders 7 none

abbrev both_wait : RedisPubSub
both_wait = subscribe plain_names one_waits orders 8 none

abbrev both_active : RedisPubSub
both_active = settle both_wait 0 true

both_wait-Reachable : Reachable plain_names both_wait
both_wait-Reachable = next (next created (subscribes orders 7 none)) (subscribes orders 8 none)

Reachable-IsCoherent_example : IsCoherent both_active
Reachable-IsCoherent_example =
    Reachable-IsCoherent plain_names (next both_wait-Reachable (settles 0 true))

-- The first of two handlers throws, and the second is not called.
first_throws : (on_message (λ h. h == 7) both_active none orders).called ≡ 7 ∷ []
unfolding on_message call_handlers settle resume_all Redis.resume subscribe subscribe_channel get
    put delete
first_throws = refl

-- The command fails: nothing is left of the two.
none_left : (settle both_wait 0 false).subs_refs_map ≡ []
unfolding settle resume_all Redis.resume rollback_subscription subscribe subscribe_channel get put
    delete
none_left = refl

rejected_subscribers_removed_example :
    (get (settle both_wait 0 false).subscription_map 1
      ≡ (if waits_for 0 both_wait.waiters 1 then none else get both_wait.subscription_map 1))
    × ((name : Text)
        → has (refs_or_nil (get (settle both_wait 0 false).subs_refs_map name)) 1 ≡ (
            not (waits_for 0 both_wait.waiters 1)
            && has (refs_or_nil (get both_wait.subs_refs_map name)) 1))
rejected_subscribers_removed_example =
    rejected_subscribers_removed both_wait 0 1
      (Reachable-IsCoherent plain_names both_wait-Reachable)

abbrev event_7 : SubscriptionEvent
event_7 = record { id = 0; trigger = orders; handler = 7; is_pattern = false }

event_7_known : get both_active.subscription_map 0 ≡ some event_7
unfolding settle resume_all Redis.resume subscribe subscribe_channel get put delete
event_7_known = refl

unsubscribe-IsCoherent_example :
    ((unsubscribe both_active 0).0 ≡ none)
    × ((unsubscribe both_active 0).1.subscription_map ≡ delete both_active.subscription_map 0)
    × ((name : Text)
        → get (unsubscribe both_active 0).1.subs_refs_map name
          ≡ refs_option (ids_for name (delete both_active.subscription_map 0)))
    × ((unsubscribe both_active 0).1.commands ≡ (
        if ids_for event_7.trigger (delete both_active.subscription_map 0) == []
        then both_active.commands ++ release_for event_7.is_pattern event_7.trigger ∷ []
        else both_active.commands))
unsubscribe-IsCoherent_example =
    unsubscribe-IsCoherent both_active 0 event_7
      (Reachable-IsCoherent plain_names (next both_wait-Reachable (settles 0 true))) event_7_known

-- Two messages come in, and one call of `next` takes the first.
abbrev open_iterator : PubSubAsyncIterator
open_iterator = subscribe_all (new_iterator 0) (fulfilled 4 ∷ [])

abbrev two_messages : PubSubAsyncIterator
two_messages = push_value (push_value open_iterator 5) 6

new_pending : (new_iterator 0).subscribing ≡ pending
unfolding new_iterator arm_idle_timer
new_pending = refl

two_messages-Run : Run 0 [] (5 ∷ 6 ∷ []) two_messages
two_messages-Run = receives 6 (receives 5 (subscribed (fulfilled 4 ∷ []) new_pending starts))

two_messages-listening : two_messages.listening ≡ true
unfolding push_value arm_idle_timer subscribe_all resume_each new_iterator
two_messages-listening = refl

messages_in_order_example : values two_messages.answers ++ two_messages.push_queue ≡ 5 ∷ 6 ∷ []
messages_in_order_example = messages_in_order two_messages-Run two_messages-listening (omega arith)

-- One call of `next` before the iterator is closed, and one after.
abbrev asked_once : PubSubAsyncIterator
asked_once = Iterator.next open_iterator 1

abbrev asked_twice : PubSubAsyncIterator
asked_twice = Iterator.next (return_ asked_once) 2

asked_once-Run : Run 0 (1 ∷ []) [] asked_once
asked_once-Run = asks_next 1 (subscribed (fulfilled 4 ∷ []) new_pending starts)

asked_twice-Run : Run 0 (1 ∷ 2 ∷ []) [] asked_twice
asked_twice-Run = asks_next 2 (returns asked_once-Run)

asked_twice-settled : asked_twice.subscribing ≡ settled none
unfolding Iterator.next return_ Iterator.resume take_next teardown arm_idle_timer subscribe_all
    resume_each new_iterator
asked_twice-settled = refl

asked_twice-closed : asked_twice.listening ≡ false
unfolding Iterator.next return_ Iterator.resume take_next teardown arm_idle_timer subscribe_all
    resume_each new_iterator
asked_twice-closed = refl

calls_answered_in_order_example :
    callers asked_once.answers ++ (asked_once.pull_queue ++ asked_in asked_once.parked) ≡ 1 ∷ []
calls_answered_in_order_example = calls_answered_in_order asked_once-Run

closed_answers_all_example : callers asked_twice.answers ≡ 1 ∷ 2 ∷ []
closed_answers_all_example =
    closed_answers_all asked_twice-Run none asked_twice-settled asked_twice-closed

queues_bounded_example :
    ((two_messages.pull_queue ≡ []) ⊎ (two_messages.push_queue ≡ []))
    × (length two_messages.push_queue ≤ max_queue_size)
queues_bounded_example = queues_bounded two_messages-Run

closed_releases_all_example : asked_twice.unsubscribed ≡ given_ids asked_twice-Run
closed_releases_all_example = closed_releases_all asked_twice-Run asked_twice-closed
