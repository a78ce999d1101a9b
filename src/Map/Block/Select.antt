-- ===== src/Map/Block/Select.antt =====
-- Which block a round of the loop chooses. Each case names the pass by its `Sizes` and its level,
-- and the ends of the range by their multiples of the alignment and of the block size.
use clearram.Base.{ℕ, ◌^◌, ◌≤◌, ◌<◌, true, false, ◌≡◌, arith}
use clearram.Base.Bits.{bit_and_low, bit_and_high}
use clearram.Map.Block.{Sizes, sizes, select_block}
use clearram.Map.Block.Align.{Aligns-4k, Aligns-2m, Aligns-1g}
use clearram.Map.Unaligned.Spec.{round_up, round_down}

-- The round maps `lo..hi`.
abbrev pub Maps : Sizes → (level b l lo hi : ℕ) → Type 0
Maps z level b l lo hi =
    (n : ℕ) → select_block z level b l n ≡ record { found = true; base = lo; limit = hi }

-- The round maps nothing, and the next one starts at `hi`.
abbrev pub Skips : Sizes → (level b l hi : ℕ) → Type 0
Skips z level b l hi =
    (n : ℕ)
    → ((select_block z level b l n).found ≡ false) × ((select_block z level b l n).limit ≡ hi)

-- What a pass over blocks of `a` frames, less the blocks of `c` frames, chooses at `b..l`.
pub record Chooses (z : Sizes) (level a c b l : ℕ) : Type 0 where
  pub nothing : round_down l a ≤ round_up b a → Skips z level b l l
  pub whole :
      round_up b a < round_down l a
      → round_down l c ≤ round_up b c
      → Maps z level b l (round_up b a) (round_down l a)
  pub front :
      round_up b a < round_up b c
      → round_up b c < round_down l c
      → Maps z level b l (round_up b a) (round_up b c)
  pub back :
      round_up b a ≡ round_up b c
      → round_up b c < round_down l c
      → round_down l c < round_down l a
      → Maps z level b l (round_down l c) (round_down l a)
  pub no_back :
      round_up b a ≡ round_up b c
      → round_up b c < round_down l c
      → round_down l c ≡ round_down l a
      → Skips z level b l (round_down l a)

module _ (b l : ℕ) (inside : b < l) (word : l < 2 ^ 64) where
  pub chooses_1g :
      (round_up b 262144 < round_down l 262144
        → Maps (sizes 262144 262144) 3 b l (round_up b 262144) (round_down l 262144))
      × (round_down l 262144 ≤ round_up b 262144 → Skips (sizes 262144 262144) 3 b l l)
  unfolding select_block
  chooses_1g = (
    λ h n. ground (arith, (Aligns-1g b l n inside word).some_block h),
    λ h n. (
      ground (arith, (Aligns-1g b l n inside word).no_block h),
      ground (
        arith,
        (Aligns-1g b l n inside word).no_block h,
        (Aligns-1g b l n inside word).no_block_limit h,
      ),
    ),
  )

  pub Chooses-2m : Chooses (sizes 262144 512) 2 512 262144 b l
  unfolding select_block
  Chooses-2m = record {
    nothing = λ h n. ground (
      arith,
      (Aligns-2m b l n inside word).no_block h,
      (Aligns-2m b l n inside word).no_block_limit h,
    );
    whole = λ h k n. ground (
      arith,
      (Aligns-2m b l n inside word).some_block h,
      bit_and_low 18 (round_up b 512),
      bit_and_high 18 46 (round_down l 512),
    );
    front = λ h k n. ground (
      arith,
      (Aligns-2m b l n inside word).some_block (omega arith),
      bit_and_low 18 (round_up b 512),
      bit_and_high 18 46 (round_down l 512),
    );
    back = λ e k h n. ground (
      arith,
      (Aligns-2m b l n inside word).some_block (omega arith),
      bit_and_low 18 (round_up b 512),
      bit_and_high 18 46 (round_down l 512),
    );
    no_back = λ e k h n. ground (
      arith,
      (Aligns-2m b l n inside word).some_block (omega arith),
      bit_and_low 18 (round_up b 512),
      bit_and_high 18 46 (round_down l 512),
    );
  }

  pub Chooses-4k : Chooses (sizes 512 1) 1 1 512 b l
  unfolding select_block
  Chooses-4k = record {
    nothing = λ h n. absurd (omega arith);
    whole = λ h k n. ground (
      arith,
      (Aligns-4k b l n inside word).some_block h,
      bit_and_low 9 (round_up b 1),
      bit_and_high 9 55 (round_down l 1),
    );
    front = λ h k n. ground (
      arith,
      (Aligns-4k b l n inside word).some_block (omega arith),
      bit_and_low 9 (round_up b 1),
      bit_and_high 9 55 (round_down l 1),
    );
    back = λ e k h n. ground (
      arith,
      (Aligns-4k b l n inside word).some_block (omega arith),
      bit_and_low 9 (round_up b 1),
      bit_and_high 9 55 (round_down l 1),
    );
    no_back = λ e k h n. ground (
      arith,
      (Aligns-4k b l n inside word).some_block (omega arith),
      bit_and_low 9 (round_up b 1),
      bit_and_high 9 55 (round_down l 1),
    );
  }
