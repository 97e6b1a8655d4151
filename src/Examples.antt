-- ===== src/Examples.antt =====
-- Tests of the definitions and examples of the theorems on a small workflow: `add` (operator 1) feeds
-- `scale` (operator 2), an input of the workflow feeds `add`, and `scale` feeds an output of it.
pub mod Data
pub mod Content
pub mod Entities
pub mod Store
pub mod Structure
pub mod Revisions
pub mod Table
pub mod Interface
