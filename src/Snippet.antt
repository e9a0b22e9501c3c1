-- ===== src/Snippet.antt =====
-- include/lsp/SnippetString.h: the text that a completion inserts.
pub mod Types
pub mod Decimal
pub mod Read
mod Examples
