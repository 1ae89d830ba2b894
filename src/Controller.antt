-- ===== src/Controller.antt =====
-- controllers/: `AddonReconciler` and `WorkflowReconciler`. The instance that the methods change
-- through a pointer is part of their state.
pub mod Types
pub mod Workflow
pub mod Observe
pub mod Process
pub mod Finalize
pub mod Open
pub mod Cycle
pub mod Frame
pub mod Attended
pub mod Reach
pub mod System
pub mod Typed
pub mod Returned
pub mod Progress
pub mod Reached
pub mod Forgets
pub mod Panics
pub mod Uncopied
pub mod Requests
