-- ===== src/Workflows.antt =====
-- pkg/workflows/workflow.go: what is done to the template of a workflow before it is submitted, and
-- its submission.
pub mod Defaults
pub mod Parameters
pub mod Artifacts
pub mod Install
pub mod Frame
pub mod Ready
pub mod Submitted
pub mod Effects
pub mod Configured
pub mod Labelled
pub mod Shapes
pub mod Safety
pub mod Builder
pub mod Built
