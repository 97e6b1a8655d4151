-- ===== src/Content.antt =====
-- runtime/hetdesrun/persistence/models/workflow.py: the validators of `WorkflowContent`, a child for
-- each group of them.
pub mod Dicts
pub mod Links
pub mod Acyclic
pub mod Moved
pub mod Adjust
pub mod Inputs
pub mod Outputs
pub mod Outer
