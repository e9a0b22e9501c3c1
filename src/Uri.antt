-- ===== src/Uri.antt =====
-- include/lsp/URI.h and src/lsp/URI.cpp: resource identifiers.
pub mod Types
pub mod Percent
pub mod Parse
pub mod Layout
pub mod Written
pub mod Round
mod Examples
