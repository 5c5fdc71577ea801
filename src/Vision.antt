-- ===== src/Vision.antt =====
-- The vision seam (src/prooflens/vision): the assessment, the backend protocol and the hybrid.
pub mod Schema
pub mod Hybrid
mod Tests
