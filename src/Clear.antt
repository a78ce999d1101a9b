-- ===== src/Clear.antt =====
-- Zero-filling RAM, the exception handler and the VGA output of subr_clear.c.
pub mod Vga
pub mod Regs
pub mod State
pub mod Exception
pub mod Fill
pub mod Halt
pub mod CpuSetup
pub mod Entry
