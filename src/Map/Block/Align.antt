-- ===== src/Map/Block/Align.antt =====
-- crp_amd64_align_block_limit() shrinks a range to the whole blocks inside it.
use clearram.Base.{ℕ, ◌-◌, ◌^◌, ◌≤◌, ◌<◌, true, false, ◌≡◌, arith}
use clearram.Base.Bits.{bit_and_low, bit_and_high}
use clearram.Map.Block.{align_block_limit}
use clearram.Map.Unaligned.Spec.{round_up, round_down}

-- What the helper returns at a range and an alignment.
pub record Aligns (b l a n : ℕ) : Type 0 where
  pub some_block :
      round_up b a < round_down l a
      → align_block_limit b l a n ≡ record {
        found = true;
        base = round_up b a;
        limit = round_down l a;
        npages = round_down l a - round_up b a;
      }
  pub no_block : round_down l a ≤ round_up b a → (align_block_limit b l a n).found ≡ false
  pub no_block_limit : round_down l a ≤ round_up b a → (align_block_limit b l a n).limit ≡ l

module _ (b l n : ℕ) (inside : b < l) (word : l < 2 ^ 64) where
  pub Aligns-4k : Aligns b l 1 n
  unfolding align_block_limit
  Aligns-4k = record {
    some_block = λ h. ground (arith, bit_and_low 0 b, bit_and_high 0 64 l);
    no_block = λ h. absurd (omega arith);
    no_block_limit = λ h. absurd (omega arith);
  }

  pub Aligns-2m : Aligns b l 512 n
  unfolding align_block_limit
  Aligns-2m = record {
    some_block = λ h. ground (arith, bit_and_low 9 b, bit_and_high 9 55 l);
    no_block = λ h. ground (arith, bit_and_low 9 b, bit_and_high 9 55 l);
    no_block_limit = λ h. ground (arith, bit_and_low 9 b, bit_and_high 9 55 l);
  }

  pub Aligns-1g : Aligns b l 262144 n
  unfolding align_block_limit
  Aligns-1g = record {
    some_block = λ h. ground (arith, bit_and_low 18 b, bit_and_high 18 46 l);
    no_block = λ h. ground (arith, bit_and_low 18 b, bit_and_high 18 46 l);
    no_block_limit = λ h. ground (arith, bit_and_low 18 b, bit_and_high 18 46 l);
  }
