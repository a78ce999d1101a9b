-- ===== src/Map/Block.antt =====
-- The helpers of cr_amd64_map_pages_unaligned() in subr_map.c, which choose the block of page
-- frames that is mapped next. A pointer argument that a helper writes is a field of its result.
pub mod Align
pub mod Select
use clearram.Base.{
  ℕ, min, Bool, true, false, if◌then◌else◌, ltb, leb, ◌==◌, ◌&&◌, not, add64, sub64, neg64, bit_and,
  Option, none, some,
}
use clearram.Map.Layout.{lvl_pt, lvl_pd, lvl_pdp, ps_4k, ps_2m, ps_1g}

-- `found` is the return value; the range is what the pointers hold afterwards.
pub record Block : Type 0 where
  pub found : Bool
  pub base : ℕ
  pub limit : ℕ

pub record Aligned : Type 0 where
  pub found : Bool
  pub base : ℕ
  pub limit : ℕ
  pub npages : ℕ

unfoldable pub get_block_first : (base limit block_size offset npages : ℕ) → Block
get_block_first base limit block_size offset npages =
    let npages_pfx = sub64 block_size offset in
    let npages_min = add64 npages_pfx block_size in
    let pfn_block_limit =
      if leb npages_min npages then add64 base (min npages npages_pfx) else limit in
    if ltb base pfn_block_limit
    then record { found = true; base = base; limit = pfn_block_limit }
    else record { found = false; base = base; limit = limit }

unfoldable pub get_block_last : (base limit block_size offset npages : ℕ) → Block
get_block_last base limit block_size offset npages =
    let pfn_block_base = if leb block_size npages then bit_and limit (neg64 block_size) else base in
    if ltb pfn_block_base limit
    then record { found = true; base = pfn_block_base; limit = limit }
    else record { found = false; base = base; limit = limit }

-- The second half of crp_amd64_align_block_limit(), at the base that the first half left.
unfoldable pub align_limit : (base limit align_size npages : ℕ) → Aligned
align_limit base limit align_size npages =
    let pfn_block_limit = bit_and limit (neg64 align_size) in
    if ltb base pfn_block_limit
    then record {
      found = true;
      base = base;
      limit = pfn_block_limit;
      npages = sub64 pfn_block_limit base;
    }
    else record { found = false; base = base; limit = limit; npages = npages }

unfoldable pub align_block_limit : (base limit align_size npages : ℕ) → Aligned
unfolding align_limit
align_block_limit base limit align_size npages =
    let offset = bit_and base (sub64 align_size 1) in
    if offset == 0
    then align_limit base limit align_size npages
    else if ltb (sub64 limit base) (sub64 align_size offset)
    then record { found = false; base = base; limit = limit; npages = npages }
    else align_limit (add64 base (sub64 align_size offset)) limit align_size npages

pub record Sizes : Type 0 where
  pub block_size : ℕ
  pub align_size : ℕ

abbrev pub sizes : ℕ → ℕ → Sizes
sizes b a = record { block_size = b; align_size = a }

-- The `switch (level)`: at any other level both variables stay without a value.
unfoldable pub level_sizes : ℕ → Option Sizes
level_sizes level =
    if level == lvl_pt
    then some (sizes ps_2m ps_4k)
    else if level == lvl_pd
    then some (sizes ps_1g ps_2m)
    else if level == lvl_pdp
    then some (sizes ps_1g ps_1g)
    else none

-- The chain of conditions in the loop's body: `found` says that the range is to be mapped.
unfoldable pub select_block : Sizes → (level base limit npages : ℕ) → Block
unfolding get_block_first get_block_last
select_block z level base limit npages =
    let a = align_block_limit base limit z.align_size npages in
    let offset = bit_and a.base (sub64 z.block_size 1) in
    if not a.found
    then record { found = false; base = a.base; limit = a.limit }
    else if ltb level lvl_pdp && (offset == 0)
    then get_block_last a.base a.limit z.block_size offset a.npages
    else if ltb level lvl_pdp && ltb 0 offset
    then get_block_first a.base a.limit z.block_size offset a.npages
    else record { found = true; base = a.base; limit = a.limit }
