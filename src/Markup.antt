-- ===== src/Markup.antt =====
-- util/Markdown.h and util/Markdown.cpp: the text of hovers and of documentation.
pub mod Escape
pub mod Document
pub mod Code
pub mod CodeSpan
mod Examples
