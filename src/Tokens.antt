-- ===== src/Tokens.antt =====
-- document/SemanticTokens.cpp: semantic tokens and the relative numbers that encode them.
pub mod Types
pub mod Encode
pub mod Reads
pub mod Decode
pub mod Place
pub mod Inactive
mod Examples
