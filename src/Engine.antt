-- ===== src/Engine.antt =====
-- The pure scoring engine (src/prooflens/engine): value types, verdict vocabulary, fusion.
pub mod Number
pub mod Verdicts
pub mod Config
pub mod Types
pub mod Fusion
pub mod HashStore
pub mod Imaging
pub mod Checks
pub mod Pipeline
pub mod Summarize
mod Tests
