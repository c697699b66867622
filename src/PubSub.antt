-- ===== src/PubSub.antt =====
-- packages/graphql-pubsub/src: subscriptions over Redis, and the iterator over them.
pub mod Redis
pub mod Iterator
mod Tests
