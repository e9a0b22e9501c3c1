-- ===== src/Format.antt =====
-- util/Formatting.cpp: the layout of source text in hovers.
pub mod Lines
pub mod Safe
pub mod Squash
pub mod DocComment
pub mod Leading
pub mod Case
mod Examples
