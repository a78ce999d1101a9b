-- ===== src/Linux/PmapWalk.antt =====
-- cr_host_pmap_walk() of subr_Linux.c: the ranges of RAM among the kernel's memory resources. The
-- section's parameters are the kernel's: the flags of busy system RAM, and the resources from
-- `iomem_resource.child` on, in the order of their `sibling` pointers.
mod Tests
use clearram.Base.{
  ℕ, ◌+◌, ◌*◌, ◌/◌, ◌^◌, Bool, true, false, if◌then◌else◌, ◌==◌, bit_and, add64, shr, List, [], ◌∷◌,
}

-- The fields of the kernel's `struct resource` that the walk reads.
pub record Resource : Type 0 where
  pub start : ℕ
  pub end : ℕ
  pub flags : ℕ

-- struct crh_pmap_walk_params; `res_cur` is the current resource and its siblings.
pub record PmapWalkParams : Type 0 where
  pub restart : Bool
  pub res_cur : List Resource

-- CRH_INIT_PMAP_WALK_PARAMS.
abbrev pub walk_params : PmapWalkParams
walk_params = record { restart = true; res_cur = [] }

-- `found` is the value that is returned, 1 or 0.
pub record PmapWalked : Type 0 where
  pub found : Bool
  pub section_base : ℕ
  pub section_limit : ℕ
  pub params : PmapWalkParams

abbrev pub section_of : Resource → ℕ × ℕ
section_of r = (shr r.start 12, shr (add64 r.end 1) 12)

module _ (flags_mask : ℕ) where
  abbrev pub is_ram : Resource → Bool
  is_ram r = bit_and r.flags flags_mask == flags_mask

  -- The `for` loop; the current resource moves on also where one is found.
  unfoldable pub walk_loop : List Resource → PmapWalked
  walk_loop [] = record {
    found = false;
    section_base = 0;
    section_limit = 0;
    params = record { restart = false; res_cur = [] };
  }
  walk_loop (r ∷ siblings) =
      let rest = walk_loop siblings in
      if is_ram r
      then record {
        found = true;
        section_base = (section_of r).0;
        section_limit = (section_of r).1;
        params = record { restart = false; res_cur = siblings };
      }
      else rest

  unfoldable pub pmap_walk : (children : List Resource) → PmapWalkParams → PmapWalked
  unfolding walk_loop
  pmap_walk children params = walk_loop (if params.restart then children else params.res_cur)

  -- The ranges of page frames that are RAM.
  abbrev pub sections : List Resource → List (ℕ × ℕ)
  sections [] = []
  sections (r ∷ rs) = let rest = sections rs in if is_ram r then section_of r ∷ rest else rest
