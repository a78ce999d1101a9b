-- ===== src/Map.antt =====
-- The page mapping logic of subr_map.c and mapdef.h.
pub mod Layout
pub mod Block
pub mod Unaligned
pub mod Aligned
pub mod Walk
pub mod Clone
