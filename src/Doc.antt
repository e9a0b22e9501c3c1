-- ===== src/Doc.antt =====
-- document/SlangDoc.cpp: the text of an open document and the changes that the client sends.
pub mod Change
pub mod Addresses
pub mod Terminated
pub mod Splice
pub mod Rejected
mod Examples
