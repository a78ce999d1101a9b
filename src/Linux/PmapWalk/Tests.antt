-- ===== src/Linux/PmapWalk/Tests.antt =====
-- A walk over two ranges of RAM with a device between them.
use clearram.Base.{false, ◌≡◌, refl, [], ◌∷◌, List, ℕ}
use clearram.Linux.PmapWalk.{Resource, pmap_walk, walk_loop, walk_params}

abbrev resource : ℕ → ℕ → ℕ → Resource
resource s e f = record { start = s; end = e; flags = f }

abbrev machine : List Resource
machine =
    resource 0x1000 0x9ffff 0x81000200
    ∷ resource 0xa0000 0xbffff 0x200
    ∷ resource 0x100000 0x7fffffff 0x81000200
    ∷ []

second_section :
    let first = pmap_walk 0x81000000 machine walk_params in
    let second = pmap_walk 0x81000000 machine first.params in
    let third = pmap_walk 0x81000000 machine second.params in
    (first.section_limit ≡ 0xa0) × (second.section_base ≡ 0x100) × (third.found ≡ false)
unfolding pmap_walk walk_loop
second_section = (refl, refl, refl)
