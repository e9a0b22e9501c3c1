-- ===== src/Index.antt =====
-- include/Indexer.h and src/Indexer.cpp: the index of the workspace, from names to files.
pub mod Types
pub mod Update
pub mod Query
pub mod Nearest
pub mod Closest
pub mod Distinct
pub mod Choice
pub mod Include
mod Lookups
pub mod Consistent
pub mod Exclusion
pub mod SameNames
pub mod Preserve
pub mod History
pub mod Edges
mod Examples
