-- ===== src/Lkm/MapRam.antt =====
-- The mapping of RAM in cr_host_lkm_init(): a walk over all RAM for each of the levels 3, 2 and 1.
-- The call that maps one block is the parameter `mapper` of Map/Unaligned, on the state that it and
-- the walk do not share.
pub mod Laws
mod Tests
use clearram.Base.{ℕ, zero, suc, ◌+◌, if◌then◌else◌, List, length, Outcome, done, out_of_fuel, try}
use clearram.Map.Layout.{lvl_pdp, lvl_pd, lvl_pt}
use clearram.Map.Unaligned.{map_pages_unaligned}
use clearram.Linux.PmapWalk.{Resource, PmapWalkParams, walk_params, pmap_walk}

module _ {S : Type 0} (mapper : (base limit : ℕ) → S → Outcome S) (flags_mask : ℕ)
    (children : List Resource) where
  -- `while ((err = cr_host_pmap_walk(...)) == 1)`.
  unfoldable pub map_sections : (fuel level : ℕ) → PmapWalkParams → S → Outcome S
  map_sections zero level params s = out_of_fuel
  map_sections (suc fuel) level params s =
      let w = pmap_walk flags_mask children params in
      let rest = λ (t : S). map_sections fuel level w.params t in
      if w.found
      then try (map_pages_unaligned mapper w.section_base w.section_limit level s) rest
      else done s

  -- One round for each resource, and the last walk.
  unfoldable pub map_level : (level : ℕ) → S → Outcome S
  map_level level s = map_sections (suc (length children)) level walk_params s

  unfoldable pub map_ram : S → Outcome S
  map_ram s = try (map_level lvl_pdp s) λ t. try (map_level lvl_pd t) λ u. map_level lvl_pt u
