-- ===== src/Engine.antt =====
-- internal/core/scanner/engine and the errors of internal/core/scanner/probe: the stages of a scan,
-- their workers and the chains of stages.
pub mod Slots
pub mod Errors
pub mod Stage
pub mod Chain
pub mod Flow
mod Tests
