-- ===== src/Linux.antt =====
-- The Linux glue of subr_Linux.c.
pub mod PmapWalk
pub mod StopCpus
pub mod VirtToPhys
pub mod Cdev
pub mod CdevWrite
