-- ===== src/Syntax.antt =====
-- document/SyntaxIndexer.cpp: the token and the syntax at a place of the text.
pub mod Index
pub mod Search
pub mod Word
pub mod AtPlace
mod Examples
