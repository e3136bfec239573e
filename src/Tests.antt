-- ===== src/Tests.antt =====
-- Runs of the model at concrete inputs, and the theorems at them.
pub mod Data
pub mod Stories
pub mod Components
pub mod Rendering
pub mod Reviews
pub mod Analyses
