-- ===== src/Emitter.antt =====
-- packages/event-emitter/src: the event emitter service.
pub mod Pattern
pub mod Registry
mod Tests
