-- ===== src/Workflows/Safety.antt =====
-- pkg/workflows/workflow.go: the type assertions of `Install` hold on a template of the right shape.
pub mod Resources
pub mod Templates
pub mod Parameters
pub mod Install
