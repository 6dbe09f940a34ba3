-- ===== src/Workflow.antt =====
-- Test workflows of the backend (apps/backend/src/test-workflows): the graph of a definition, its
-- validation, and the runner that executes it.
pub mod Graph
pub mod Types
pub mod Definition
pub mod Runner
pub mod Step
pub mod Validator
pub mod Environments
