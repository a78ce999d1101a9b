-- ===== src/FreeBsd/PmapWalk/Tests.antt =====
-- A machine with two ranges of memory.
use clearram.Base.{ℕ, ◌≡◌, [], ◌∷◌, arith, if◌then◌else◌, ◌==◌}
use clearram.FreeBsd.PmapWalk.{walk_params}
use clearram.FreeBsd.PmapWalk.Repeats.{sections_walked, pmap_walk-repeat}

abbrev phys_avail : ℕ → ℕ
phys_avail i =
    if i == 0
    then 0x1000
    else if i == 1
    then 0x9f000
    else if i == 2
    then 0x100000
    else if i == 3
    then 0x7fff0000
    else 0

pmap_walk-repeat_example :
    sections_walked phys_avail 3 walk_params
    ≡ (0x1000, 0x9f000) ∷ (0x1000, 0x9f000) ∷ (0x1000, 0x9f000) ∷ []
pmap_walk-repeat_example = pmap_walk-repeat phys_avail 3 (omega arith)
