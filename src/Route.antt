-- ===== src/Route.antt =====
-- The handlers of routes, packages/core/src/core/route-handler.ts and param-resolver.ts.
pub mod Params
pub mod Pipeline
mod Tests
