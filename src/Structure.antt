-- ===== src/Structure.antt =====
-- runtime/hetdesrun/structure/models.py: element types, thing nodes, sources and sinks of the virtual
-- structure, their filters, and the validators of a `CompleteStructure`. Each child has a part of it.
pub mod Filters
pub mod Entities
pub mod Stored
pub mod Complete
pub mod Hierarchy
pub mod Valid
