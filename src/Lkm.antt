-- ===== src/Lkm.antt =====
-- The entry point of the module, clearram.c.
pub mod MapRam
pub mod Unmap
pub mod Setup
pub mod RamMapped
pub mod Init
mod Examples
