-- ===== src/Engine.antt =====
-- internal/engine/memory: the in-memory engine.
pub mod Dict
pub mod Objects
pub mod Lists
pub mod Maps
mod Tests
pub mod Ring
pub mod Cache
