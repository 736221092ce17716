-- ===== src/App.antt =====
-- internal/router, internal/eventbus, internal/modules/common and internal/abci: how a block runs.
pub mod Router
pub mod Lawful
pub mod Failing
pub mod Post
pub mod Records
pub mod Lifecycle
