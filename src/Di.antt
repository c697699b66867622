-- ===== src/Di.antt =====
-- packages/core/src/di: the dependency-injection container.
pub mod Wrapper
pub mod Module
pub mod Container
pub mod Injector
pub mod Get
mod Tests
