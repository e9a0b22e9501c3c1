-- ===== src/Watch.antt =====
-- lsp/FileWatchers.cpp: what is watched, and who is told of a change.
pub mod Dispatch
