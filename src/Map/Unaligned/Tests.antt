-- ===== src/Map/Unaligned/Tests.antt =====
-- Runs of the passes, and the theorems about them at concrete ranges.
use clearram.Base.{Outcome, ◌++◌, ℕ, done, List, [], ◌∷◌, ◌≡◌, refl, arith, undefined}
use clearram.Map.Block.{level_sizes, select_block, align_block_limit}
use clearram.Map.Unaligned.{rounds, map_pages_unaligned}
use clearram.Map.Unaligned.Spec.{map_all, blocks_2m}
use clearram.Map.Unaligned.Passes.{map_pages_unaligned-map_all}

-- A mapping function that notes its calls.
abbrev note : (base limit : ℕ) → List (ℕ × ℕ) → Outcome (List (ℕ × ℕ))
note base limit calls = done (calls ++ (base, limit) ∷ [])

-- 0x1..0x41234: single pages, then 2M blocks up to 1G, and the rest behind it.
pass_2m : map_pages_unaligned note 0x1 0x41234 2 [] ≡ done ((0x200, 0x41200) ∷ [])
unfolding map_pages_unaligned rounds level_sizes select_block align_block_limit
pass_2m = refl

pass_4k : map_pages_unaligned note 0x1 0x41234 1 [] ≡ done ((0x1, 0x200) ∷ (0x41200, 0x41234) ∷ [])
unfolding map_pages_unaligned rounds level_sizes select_block align_block_limit
pass_4k = refl

pass_split :
    map_pages_unaligned note 0x3fe00 0x81234 2 []
    ≡ done ((0x3fe00, 0x40000) ∷ (0x80000, 0x81200) ∷ [])
unfolding map_pages_unaligned rounds level_sizes select_block align_block_limit
pass_split = refl

no_such_level : map_pages_unaligned note 0x1 0x41234 4 [] ≡ undefined
unfolding map_pages_unaligned rounds level_sizes
no_such_level = refl

map_pages_unaligned-map_all_example :
    map_pages_unaligned note 0x3fe00 0x81234 2 [] ≡ map_all note (blocks_2m 0x3fe00 0x81234) []
map_pages_unaligned-map_all_example =
    map_pages_unaligned-map_all note 2 0x3fe00 0x81234 [] (omega arith) (omega arith) (omega arith)
