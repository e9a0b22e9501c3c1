-- ===== src/Server.antt =====
-- src/SlangServer.cpp: the mode of the server (explored, built, or with a top level), the loads of
-- its configuration, and the notifications on watched files.
pub mod Types
pub mod Create
pub mod Load
pub mod Watched
pub mod Mode
pub mod Outcome
pub mod Reload
pub mod Define
pub mod Keeps
pub mod History
pub mod Told
pub mod Fuzzy
pub mod Symbols
pub mod Notice
mod Examples
