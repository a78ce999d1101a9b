-- ===== src/Map/Unaligned/Cover.antt =====
-- The three passes of cr_host_lkm_init() over one range of page frames, together.
use clearram.Base.{ℕ, ◌+◌, ◌≤◌, ltb, leb, ◌&&◌, if◌then◌else◌, List, [], ◌∷◌, ◌++◌, ◌≡◌, arith}
use clearram.Map.Unaligned.Spec.{
  round_up, round_down, span, around, blocks_1g, blocks_2m, blocks_4k, times_mapped,
}

pub times_mapped-append :
    (p : ℕ) (xs ys : List (ℕ × ℕ))
    → times_mapped p (xs ++ ys) ≡ times_mapped p xs + times_mapped p ys
times_mapped-append p [] ys = omega arith
times_mapped-append p ((lo, hi) ∷ xs) ys = omega (arith, times_mapped-append p xs ys)

-- With the bounds of the larger blocks inside those of the smaller ones, the parts fit together.
nested_once :
    (p b b2 b3 l3 l2 l : ℕ)
    → b ≤ b2
    → b2 ≤ b3
    → l3 ≤ l2
    → l2 ≤ l
    → times_mapped p (span b3 l3)
        + times_mapped p (around b2 l2 b3 l3)
        + times_mapped p (around b l b2 l2)
      ≡ (if leb b p && ltb p l then 1 else 0)
nested_once p b b2 b3 l3 l2 l h1 h2 h3 h4 = ground arith

-- Each frame of the range is mapped by one block of one of the passes, and no other frame is.
pub passes_once :
    (p b l : ℕ)
    → times_mapped p (blocks_1g b l)
        + times_mapped p (blocks_2m b l)
        + times_mapped p (blocks_4k b l)
      ≡ (if leb b p && ltb p l then 1 else 0)
unfolding blocks_1g blocks_2m blocks_4k
passes_once p b l =
    nested_once p b (round_up b 512) (round_up b 262144) (round_down l 262144) (round_down l 512) l
      (omega arith) (omega arith) (omega arith) (omega arith)
