-- ===== src/FreeBsd.antt =====
-- The FreeBSD glue of subr_FreeBSD.c.
pub mod PmapWalk
