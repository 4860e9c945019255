-- ===== src/Tests.antt =====
-- Concrete runs of the theorems.
pub mod Memory
pub mod Disk
pub mod Storage
pub mod Server
pub mod Running
pub mod Windows
pub mod Rules
pub mod Streams
pub mod Links
