-- ===== src/Diag.antt =====
-- include/ServerDiagClient.h: the diagnostics that the server holds for each document, the set of
-- documents whose diagnostics the editor has to be told again, and the messages sent to it.
pub mod Types
pub mod Report
pub mod Publish
pub mod Sync
pub mod History
pub mod Hull
mod Examples
