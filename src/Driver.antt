-- ===== src/Driver.antt =====
-- src/ServerDriver.cpp: the documents that the driver keeps, and those that the client has open.
pub mod Types
pub mod Kept
pub mod Tree
pub mod Documents
pub mod Changes
pub mod Save
pub mod Laws
pub mod Made
pub mod Gentle
pub mod Mirror
pub mod Opened
pub mod Edited
pub mod Disk
pub mod Notified
pub mod Saved
pub mod History
pub mod Memory
mod Examples
