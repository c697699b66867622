-- ===== src/Apollo.antt =====
-- The handler of GraphQL subscriptions of packages/apollo/src.
pub mod Timeouts
pub mod Streams
pub mod Connection
pub mod Loop
pub mod Session
mod Tests
