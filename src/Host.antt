-- ===== src/Host.antt =====
-- The host environment of subr_host.c, with its list, its allocator and its tree of pages.
pub mod Kernel
pub mod Malloc
pub mod ReservedList
pub mod PagesTree
pub mod Link
pub mod AllocPt
