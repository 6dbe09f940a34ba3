-- ===== src/Workflow/Step.antt =====
-- One step of a run (apps/backend/src/test-workflows/runner): templates, assertions, exports, redaction
-- and test-workflow-step-executor.ts. What JavaScript does with texts is a parameter, `Texts`.
pub mod Texts
pub mod Template
pub mod Paths
pub mod Assertions
pub mod Exports
pub mod Redaction
pub mod Classify
pub mod Request
pub mod Executor
pub mod Shape
pub mod Refs
pub mod Errors
pub mod Hidden
pub mod Stored
pub mod Checks
pub mod Verdict
pub mod Whole
mod Examples
