-- ===== src/Lkm/MapRam/Tests.antt =====
-- A machine with two ranges of RAM and a device between them.
use clearram.Base.{ℕ, ◌≡◌, List, [], ◌∷◌, done}
use clearram.Map.Unaligned.Spec.{map_all, times_mapped}
use clearram.Linux.PmapWalk.{Resource}
use clearram.Lkm.MapRam.{map_ram}
use clearram.Lkm.MapRam.Laws.{note, ram_blocks, map_ram-map_all, map_ram_once}

abbrev resource : ℕ → ℕ → ℕ → Resource
resource s e f = record { start = s; end = e; flags = f }

abbrev machine : List Resource
machine =
    resource 0x1000 0x9ffff 0x81000200
    ∷ resource 0xa0000 0xbffff 0x200
    ∷ resource 0x100000 0x7fffffff 0x81000200
    ∷ []

map_ram-map_all_example :
    map_ram note 0x81000000 machine []
    ≡ map_all note (ram_blocks ((0x1, 0xa0) ∷ (0x100, 0x80000) ∷ [])) []
map_ram-map_all_example = map_ram-map_all note 0x81000000 machine []

map_ram_once_example :
    (calls : List (ℕ × ℕ)) × (map_ram note 0x81000000 machine [] ≡ done calls)
    × (times_mapped 0x12345 calls ≡ 1)
map_ram_once_example = map_ram_once 0x81000000 machine 0x12345
