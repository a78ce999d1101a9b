-- ===== src/Map/Unaligned/Spec.antt =====
-- What one pass over a range of page frames is meant to map, without the loop: the frames of the
-- whole blocks of the pass's alignment, less the larger blocks that the pass before has mapped.
use clearram.Base.{
  ℕ, ◌+◌, ◌-◌, ◌*◌, ◌/◌, ltb, leb, ◌&&◌, if◌then◌else◌, List, [], ◌∷◌, ◌++◌, Outcome, done, try,
}

-- The least multiple of `a` from `n` on, and the greatest up to `n`.
abbrev pub round_up : ℕ → ℕ → ℕ
round_up n a = (n + (a - 1)) / a * a

abbrev pub round_down : ℕ → ℕ → ℕ
round_down n a = n / a * a

abbrev pub span : ℕ → ℕ → List (ℕ × ℕ)
span lo hi = if ltb lo hi then (lo, hi) ∷ [] else []

-- The range without a middle that is mapped already.
abbrev pub around : (lo hi mid_lo mid_hi : ℕ) → List (ℕ × ℕ)
around lo hi mid_lo mid_hi =
    if ltb mid_lo mid_hi then span lo mid_lo ++ span mid_hi hi else span lo hi

unfoldable pub blocks_1g : ℕ → ℕ → List (ℕ × ℕ)
blocks_1g b l = span (round_up b 262144) (round_down l 262144)

unfoldable pub blocks_2m : ℕ → ℕ → List (ℕ × ℕ)
blocks_2m b l = around (round_up b 512) (round_down l 512) (round_up b 262144) (round_down l 262144)

unfoldable pub blocks_4k : ℕ → ℕ → List (ℕ × ℕ)
blocks_4k b l = around b l (round_up b 512) (round_down l 512)

-- Maps the blocks in order, up to the first that fails.
abbrev pub map_all :
    {S : Type 0} → ((base limit : ℕ) → S → Outcome S) → List (ℕ × ℕ) → S → Outcome S
map_all mapper [] s = done s
map_all mapper ((lo, hi) ∷ bs) s = try (mapper lo hi s) (λ t. map_all mapper bs t)

-- How many of the blocks hold a page frame.
abbrev pub times_mapped : ℕ → List (ℕ × ℕ) → ℕ
times_mapped p [] = 0
times_mapped p ((lo, hi) ∷ bs) = (if leb lo p && ltb p hi then 1 else 0) + times_mapped p bs
