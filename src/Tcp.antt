-- ===== src/Tcp.antt =====
-- The TCP transport: packages/microservices/src/transports/tcp.server.ts and client/tcp.client.ts.
pub mod Wire
pub mod Frames
pub mod Client
pub mod Server
mod Tests
