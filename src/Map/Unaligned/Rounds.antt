-- ===== src/Map/Unaligned/Rounds.antt =====
-- The loop against the pass that it is meant to be: four rounds are enough, at every range.
use clearram.Base.{
  ℕ, suc, ◌^◌, ◌≤◌, ◌<◌, ltb, Outcome, done, try, [], ◌∷◌, ◌≡◌, arith, ap, fun_ext, lt→ltb, le→ltb,
  ◌∙◌, Bool-cases, inl, inr, ltb→lt, ltb→le, ◌⊎◌, ap₂, sym,
}
use clearram.Map.Block.{Sizes, sizes, level_sizes}
use clearram.Map.Block.Select.{Maps, Skips, chooses_1g, Chooses-4k, Chooses-2m}
use clearram.Map.Unaligned.{rounds, map_pages_unaligned}
use clearram.Map.Unaligned.Spec.{
  round_up, round_down, blocks_1g, map_all, blocks_2m, span, blocks_4k, around,
}

le_cases : (a b : ℕ) → (a < b) ⊎ (b ≤ a)
le_cases a b = elim (Bool-cases (ltb a b)) [
  | inl h ↦ inl (ltb→lt a b h)
  | inr h ↦ inr (ltb→le a b h)
]

module _ {S : Type 0} (mapper : (base limit : ℕ) → S → Outcome S) (z : Sizes) (level l : ℕ) where
  rounds_end : (f b n : ℕ) (s : S) → l ≤ b → rounds mapper (suc f) z level l b l n s ≡ done s
  unfolding rounds
  rounds_end f b n s h = rw (le→ltb b l h)

  rounds_map :
      (f b n lo hi : ℕ) (s : S)
      → b < l
      → Maps z level b l lo hi
      → rounds mapper (suc f) z level l b l n s
        ≡ try (mapper lo hi s) (rounds mapper f z level l hi l n)
  unfolding rounds
  rounds_map f b n lo hi s h maps = rw (lt→ltb b l h, maps n)

  rounds_skip :
      (f b n hi : ℕ) (s : S)
      → b < l
      → Skips z level b l hi
      → rounds mapper (suc f) z level l b l n s ≡ rounds mapper f z level l hi l n s
  unfolding rounds
  rounds_skip f b n hi s h skips = rw (lt→ltb b l h, (skips n).0, (skips n).1)

  -- Nothing is left from `b` on.
  rounds_rest :
      (f b n : ℕ) (s : S)
      → (b < l → Skips z level b l l)
      → rounds mapper (suc (suc f)) z level l b l n s ≡ done s
  rounds_rest f b n s skips = elim (le_cases b l) [
    | inl h ↦ rounds_skip (suc f) b n l s h (skips h) ∙ rounds_end f l n s (omega arith)
    | inr h ↦ rounds_end (suc f) b n s h
  ]

  -- One block, and nothing behind it.
  rounds_last :
      (f b n lo hi : ℕ) (s : S)
      → b < l
      → Maps z level b l lo hi
      → (hi < l → Skips z level hi l l)
      → rounds mapper (suc (suc (suc f))) z level l b l n s ≡ map_all mapper ((lo, hi) ∷ []) s
  rounds_last f b n lo hi s h maps rest =
      rounds_map (suc (suc f)) b n lo hi s h maps
      ∙ ap (try (mapper lo hi s)) (fun_ext λ t. rounds_rest f hi n t rest)

-- The part behind the middle, from a base `m` inside the range on.
module _ {S : Type 0} (mapper : (base limit : ℕ) → S → Outcome S) (z : Sizes) (level l m y hi : ℕ)
    (inside : m < l) (within : hi ≤ l) (upto : y ≤ hi) (back : y < hi → Maps z level m l y hi)
    (no_back : y ≡ hi → Skips z level m l hi) (rest : hi < l → Skips z level hi l l) where
  rounds_back :
      (f n : ℕ) (s : S)
      → rounds mapper (suc (suc (suc f))) z level l m l n s ≡ map_all mapper (span y hi) s
  rounds_back f n s = elim (le_cases y hi) [
    | inl h ↦ rw (lt→ltb y hi h) (rounds_last mapper z level l f m n y hi s inside (back h) rest)
    | inr h ↦ rw (le→ltb y hi h) (
        rounds_skip mapper z level l (suc (suc f)) m n hi s inside (no_back (omega arith))
        ∙ rounds_rest mapper z level l f hi n s rest)
  ]

-- A whole pass. `lo..hi` are the whole blocks of the range and `x..y` the larger ones among them.
module _ {S : Type 0} (mapper : (base limit : ℕ) → S → Outcome S) (z : Sizes)
    (level l lo hi x y : ℕ) (within : hi ≤ l) (upto : y ≤ hi) (after : lo ≤ x)
    (rest : hi < l → Skips z level hi l l) (mid_back : x < y → y < hi → Maps z level x l y hi)
    (mid_no_back : x < y → y ≡ hi → Skips z level x l hi) where
  rounds-around :
      (b : ℕ) (s : S)
      → b < l
      → (hi ≤ lo → Skips z level b l l)
      → (lo < hi → y ≤ x → Maps z level b l lo hi)
      → (lo < x → x < y → Maps z level b l lo x)
      → (lo ≡ x → x < y → y < hi → Maps z level b l y hi)
      → (lo ≡ x → x < y → y ≡ hi → Skips z level b l hi)
      → rounds mapper 4 z level l b l 0 s ≡ map_all mapper (around lo hi x y) s
  rounds-around b s inside nothing whole front back no_back = elim (le_cases x y) [
    | inr none_larger ↦ rw (le→ltb x y none_larger) (elim (le_cases lo hi) [
      | inl h ↦
          rw (lt→ltb lo hi h)
            (rounds_last mapper z level l 1 b 0 lo hi s inside (whole h none_larger) rest)
      | inr h ↦ rw (le→ltb lo hi h) (rounds_rest mapper z level l 2 b 0 s λ q. nothing h)
    ])
    | inl larger ↦ rw (lt→ltb x y larger) (elim (le_cases lo x) [
      | inl h ↦ rw (lt→ltb lo x h) (
          rounds_map mapper z level l 3 b 0 lo x s inside (front h larger)
          ∙ ap (try (mapper lo x s)) (
              fun_ext λ t.
                rounds_back mapper z level l x y hi (omega arith) within upto (mid_back larger)
                  (mid_no_back larger) rest 0 0 t))
      | inr h ↦
          let same : lo ≡ x = omega arith in
          rw (le→ltb lo x h) (
            rounds_back mapper z level l b y hi inside within upto (back same larger)
              (no_back same larger) rest 1 0 s)
    ])
  ]

pub rounds_1g :
    {S : Type 0} (mapper : (base limit : ℕ) → S → Outcome S) (b l : ℕ) (s : S)
    → l < 2 ^ 64
    → map_pages_unaligned mapper b l 3 s ≡ map_all mapper (blocks_1g b l) s
unfolding map_pages_unaligned level_sizes blocks_1g
rounds_1g mapper b l s word = elim (le_cases b l) [
  | inr h ↦
      let none_left : round_down l 262144 ≤ round_up b 262144 = omega arith in
      rw (le→ltb _ _ none_left) (rounds_end mapper _ 3 l 3 b 0 s h)
  | inl h ↦ elim (le_cases (round_up b 262144) (round_down l 262144)) [
    | inr k ↦
        rw (le→ltb _ _ k)
          (rounds_rest mapper (sizes 262144 262144) 3 l 2 b 0 s λ q. (chooses_1g b l q word).1 k)
    | inl k ↦ rw (lt→ltb _ _ k) (
        rounds_last mapper (sizes 262144 262144) 3 l 1 b 0 (round_up b 262144) (round_down l 262144)
          s h ((chooses_1g b l h word).0 k)
          λ q. (chooses_1g (round_down l 262144) l q word).1 (omega arith))
  ]
]

pub rounds_2m :
    {S : Type 0} (mapper : (base limit : ℕ) → S → Outcome S) (b l : ℕ) (s : S)
    → l < 2 ^ 64
    → map_pages_unaligned mapper b l 2 s ≡ map_all mapper (blocks_2m b l) s
unfolding map_pages_unaligned level_sizes blocks_2m
rounds_2m mapper b l s word = elim (le_cases b l) [
  | inr h ↦
      let no_larger : round_down l 262144 ≤ round_up b 262144 = omega arith in
      let none_left : round_down l 512 ≤ round_up b 512 = omega arith in
      rw (le→ltb _ _ no_larger, le→ltb _ _ none_left) (rounds_end mapper _ 2 l 3 b 0 s h)
  | inl h ↦
      let at_b = Chooses-2m b l h word in
      rounds-around mapper (sizes 262144 512) 2 l (round_up b 512) (round_down l 512)
        (round_up b 262144) (round_down l 262144) (omega arith) (omega arith) (omega arith)
        (λ q. (Chooses-2m (round_down l 512) l q word).nothing (omega arith))
        (λ k q.
          (Chooses-2m (round_up b 262144) l (omega arith) word).back (omega arith) (omega arith) q)
        (λ k q.
          (Chooses-2m (round_up b 262144) l (omega arith) word).no_back (omega arith) (omega arith)
            q)
        b s h at_b.nothing at_b.whole at_b.front at_b.back at_b.no_back
]

pub rounds_4k :
    {S : Type 0} (mapper : (base limit : ℕ) → S → Outcome S) (b l : ℕ) (s : S)
    → l < 2 ^ 64
    → map_pages_unaligned mapper b l 1 s ≡ map_all mapper (blocks_4k b l) s
unfolding map_pages_unaligned level_sizes blocks_4k
rounds_4k mapper b l s word = elim (le_cases b l) [
  | inr h ↦
      let no_larger : round_down l 512 ≤ round_up b 512 = omega arith in
      let empty : map_all mapper (around b l (round_up b 512) (round_down l 512)) s ≡ done s =
        rw (le→ltb _ _ no_larger, le→ltb _ _ h) in
      rounds_end mapper (sizes 512 1) 1 l 3 b 0 s h ∙ sym empty
  | inl h ↦
      let at_b = Chooses-4k b l h word in
      let up : round_up b 1 ≡ b = omega arith in
      let down : round_down l 1 ≡ l = omega arith in
      rounds-around mapper (sizes 512 1) 1 l (round_up b 1) (round_down l 1) (round_up b 512)
        (round_down l 512) (omega arith) (omega arith) (omega arith)
        (λ q. (Chooses-4k (round_down l 1) l q word).nothing (omega arith))
        (λ k q.
          (Chooses-4k (round_up b 512) l (omega arith) word).back (omega arith) (omega arith) q)
        (λ k q.
          (Chooses-4k (round_up b 512) l (omega arith) word).no_back (omega arith) (omega arith) q)
        b s h at_b.nothing at_b.whole at_b.front at_b.back at_b.no_back
      ∙ ap₂ (λ (lo hi : ℕ). map_all mapper (around lo hi (round_up b 512) (round_down l 512)) s) up
          down
]
