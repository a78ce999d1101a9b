-- ===== src/Amd64.antt =====
-- The AMD64 logic of subr_amd64.c, amd64def.h and mapdef.h.
pub mod PageEnt
pub mod Descriptors
pub mod Exception
pub mod Vectors
pub mod Ports
pub mod Delay
pub mod Cpuid
