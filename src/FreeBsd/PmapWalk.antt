-- ===== src/FreeBsd/PmapWalk.antt =====
-- cr_host_pmap_walk() of subr_FreeBSD.c. The kernel's array of ranges, `phys_avail`, is a parameter:
-- the start and the end of each range, and zeros behind the last.
pub mod Repeats
mod Tests
use clearram.Base.{ℕ, Bool, true, false, if◌then◌else◌, not, ◌==◌, ◌+◌}

-- struct crh_pmap_walk_params, with FreeBSD.
pub record PmapWalkParams : Type 0 where
  pub restart : Bool
  pub nid : ℕ

-- CRH_INIT_PMAP_WALK_PARAMS.
abbrev pub walk_params : PmapWalkParams
walk_params = record { restart = true; nid = 0 }

-- `found` is the value that is returned, 1 or 0.
pub record PmapWalked : Type 0 where
  pub found : Bool
  pub section_base : ℕ
  pub section_limit : ℕ
  pub params : PmapWalkParams

unfoldable pub pmap_walk : (phys_avail : ℕ → ℕ) → PmapWalkParams → PmapWalked
pmap_walk phys_avail params =
    let nid = if params.restart then 0 else params.nid in
    if not (phys_avail (nid + 1) == 0)
    then record {
      found = true;
      section_base = phys_avail nid;
      section_limit = phys_avail (nid + 1);
      params = record params { nid = nid + 2 };
    }
    else record {
      found = false;
      section_base = 0;
      section_limit = 0;
      params = record { restart = true; nid = nid };
    }
