-- ===== src/Map/Unaligned/Passes.antt =====
-- cr_amd64_map_pages_unaligned() as one pass over one range of page frames.
use clearram.Base.{ℕ, zero, suc, ◌^◌, ◌≤◌, ◌<◌, Outcome, List, [], ◌≡◌, arith}
use clearram.Map.Unaligned.{map_pages_unaligned}
use clearram.Map.Unaligned.Spec.{blocks_1g, blocks_2m, blocks_4k, map_all}
use clearram.Map.Unaligned.Rounds.{rounds_1g, rounds_2m, rounds_4k}

-- The blocks of a level: 1 for the 4K pages, 2 for the 2M blocks and 3 for the 1G blocks.
abbrev pub blocks : (level b l : ℕ) → List (ℕ × ℕ)
blocks zero b l = []
blocks (suc zero) b l = blocks_4k b l
blocks (suc (suc zero)) b l = blocks_2m b l
blocks (suc (suc (suc n))) b l = blocks_1g b l

-- At each level 1 to 3 the loop ends within its fuel, and calls the mapping function on exactly
-- the blocks of that level, in ascending order, up to the first call that fails, whose error
-- it returns. This holds of every range of 64-bit page frame numbers and every mapping function.
pub map_pages_unaligned-map_all :
    {S : Type 0} (mapper : (base limit : ℕ) → S → Outcome S) (level b l : ℕ) (s : S)
    → 1 ≤ level
    → level ≤ 3
    → l < 2 ^ 64
    → map_pages_unaligned mapper b l level s ≡ map_all mapper (blocks level b l) s
map_pages_unaligned-map_all mapper zero b l s low high word = absurd (omega arith)
map_pages_unaligned-map_all mapper (suc zero) b l s low high word = rounds_4k mapper b l s word
map_pages_unaligned-map_all mapper (suc (suc zero)) b l s low high word =
    rounds_2m mapper b l s word
map_pages_unaligned-map_all mapper (suc (suc (suc zero))) b l s low high word =
    rounds_1g mapper b l s word
map_pages_unaligned-map_all mapper (suc (suc (suc (suc n)))) b l s low high word =
    absurd (omega arith)
