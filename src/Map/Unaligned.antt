-- ===== src/Map/Unaligned.antt =====
-- The loop of cr_amd64_map_pages_unaligned() in subr_map.c. The call that maps one block,
-- cr_amd64_map_pages_aligned() with the arguments that the loop passes through, is the section's
-- parameter `mapper`, on a state that holds `*va_base` and the page tables.
pub mod Spec
pub mod Rounds
pub mod Cover
pub mod Passes
mod Tests
use clearram.Base.{
  ℕ, zero, suc, ltb, if◌then◌else◌, Outcome, done, undefined, out_of_fuel, try, Option, none, some,
  Bool, true, false,
}
use clearram.Map.Block.{Block, Sizes, level_sizes, select_block}

module _ {S : Type 0} (mapper : (base limit : ℕ) → S → Outcome S) where
  map_block : Block → S → Outcome S
  map_block b s = if b.found then mapper b.base b.limit s else done s

  -- `pfn_block_base < pfn_limit`, with the rounds left; `continue` takes the block's limit as base.
  rounds : ℕ → Sizes → (level pfn_limit base limit npages : ℕ) → S → Outcome S
  unfolding map_block
  rounds zero z level pfn_limit base limit npages s = out_of_fuel
  rounds (suc fuel) z level pfn_limit base limit npages s =
      let b = select_block z level base limit npages in
      let rest = λ (t : S). rounds fuel z level pfn_limit b.limit pfn_limit npages t in
      if ltb base pfn_limit then try (map_block b s) rest else done s

  pub map_pages_unaligned : (pfn_base pfn_limit level : ℕ) → S → Outcome S
  map_pages_unaligned pfn_base pfn_limit level s = elim (level_sizes level) [
    | none ↦ if ltb pfn_base pfn_limit then undefined else done s
    | some z ↦ rounds 4 z level pfn_limit pfn_base pfn_limit 0 s
  ]
