-- ===== src/Stages.antt =====
-- tasks/: what the stages do beside asking a model.
pub mod Components
pub mod Issues
pub mod Manifests
pub mod Verify
pub mod Extract
pub mod Decided
