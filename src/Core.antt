-- ===== src/Core.antt =====
-- Parts of the application core, packages/core/src/core and packages/core/src/lifecycle.
pub mod Filters
pub mod Lifecycle
mod Tests
