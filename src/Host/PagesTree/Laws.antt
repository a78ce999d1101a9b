-- ===== src/Host/PagesTree/Laws.antt =====
-- The tree as a map from page frame numbers to leaves. Its keys are the numbers modulo 2 ^ 36.
use clearram.Base.{
  Option-cases, inl, inr, ℕ, ◌%◌, ◌^◌, Bool, if◌then◌else◌, ◌==◌, ◌&&◌, Option, none, some, ◌≡◌,
  refl, arith, shr,
}
use clearram.Base.Bits.{bit_and_low}
use clearram.Host.Kernel.{Supply, vmalloc}
use clearram.Host.PagesTree.{
  Leaf, Node, Tree, Walk, no_pointer, pfn_idx, descend, arrive, create_nodes, follow, leaf_at,
  set_leaf,
}

-- A reading function under a level sees nothing of the nodes that the level creates.
descend-read :
    {A : Type 0} (fresh : A) (below : A → Supply → Walk A) (read : Option A → Option Leaf)
    → read none ≡ none
    → read (some fresh) ≡ none
    → ((a : A) (s : Supply) → read (some (below a s).node) ≡ read (some a))
    → (i : ℕ) (node : Node A) (s : Supply) (j : ℕ)
    → read ((descend fresh below i node s).node j) ≡ read (node j)
unfolding descend
descend-read fresh below read no_node empty keeps i node s j = elim (Option-cases (node i)) [
  | inl e ↦ ground (arith, keeps fresh (vmalloc s).supply)
  | inr (a, e) ↦ ground (arith, keeps a s)
]

pub leaf_at-create_nodes :
    (pfn : ℕ) (tree : Tree) (s : Supply) (q : ℕ)
    → leaf_at (create_nodes pfn tree s).node q ≡ leaf_at tree q
unfolding leaf_at create_nodes
leaf_at-create_nodes pfn tree s q =
    descend-read no_pointer third (λ o. follow (follow (follow o (pfn_idx q 3)) (pfn_idx q 2)) d)
      refl refl
      (λ n t.
        descend-read no_pointer second (λ o. follow (follow o (pfn_idx q 2)) d) refl refl
          (λ n' t'.
            descend-read no_pointer arrive (λ o. follow o d) refl refl (λ n'' t''. refl)
              (pfn_idx pfn 2) n' t' (pfn_idx q 2))
          (pfn_idx pfn 3) n t (pfn_idx q 3))
      (pfn_idx pfn 4) tree s (pfn_idx q 4)
  where
    d : ℕ
    d = pfn_idx q 1

    second : Node (Node Leaf) → Supply → Walk (Node (Node Leaf))
    second = descend no_pointer arrive (pfn_idx pfn 2)

    third : Node (Node (Node Leaf)) → Supply → Walk (Node (Node (Node Leaf)))
    third = descend no_pointer second (pfn_idx pfn 3)

same_path : ℕ → ℕ → Bool
same_path p q =
    (pfn_idx q 4 == pfn_idx p 4)
    && (pfn_idx q 3 == pfn_idx p 3)
    && (pfn_idx q 2 == pfn_idx p 2)
    && (pfn_idx q 1 == pfn_idx p 1)

same_path_lem : (p q : ℕ) → same_path p q ≡ (p % 2 ^ 36 == q % 2 ^ 36)
unfolding same_path
same_path_lem p q = ground (
  arith,
  bit_and_low 9 (shr p 27),
  bit_and_low 9 (shr p 18),
  bit_and_low 9 (shr p 9),
  bit_and_low 9 (shr p 0),
  bit_and_low 9 (shr q 27),
  bit_and_low 9 (shr q 18),
  bit_and_low 9 (shr q 9),
  bit_and_low 9 (shr q 0),
)

leaf_at-set_leaf_path :
    (tree : Tree) (p : ℕ) (leaf : Leaf) (q : ℕ)
    → leaf_at (set_leaf tree p leaf) q ≡ (if same_path p q then some leaf else leaf_at tree q)
unfolding leaf_at set_leaf same_path
leaf_at-set_leaf_path tree p leaf q = ground arith

pub leaf_at-set_leaf :
    (tree : Tree) (p : ℕ) (leaf : Leaf) (q : ℕ)
    → leaf_at (set_leaf tree p leaf) q
      ≡ (if p % 2 ^ 36 == q % 2 ^ 36 then some leaf else leaf_at tree q)
leaf_at-set_leaf tree p leaf q = rw (← same_path_lem p q) (leaf_at-set_leaf_path tree p leaf q)

-- Numbers that agree modulo 2 ^ 36 have one leaf.
pub leaf_at-key :
    (tree : Tree) (p q : ℕ) → p % 2 ^ 36 ≡ q % 2 ^ 36 → leaf_at tree p ≡ leaf_at tree q
unfolding leaf_at
leaf_at-key tree p q e = rw (idx_four, idx_three, idx_two, idx_one)
  where
    idx_four : pfn_idx p 4 ≡ pfn_idx q 4
    idx_four = omega (arith, bit_and_low 9 (shr p 27), bit_and_low 9 (shr q 27))

    idx_three : pfn_idx p 3 ≡ pfn_idx q 3
    idx_three = omega (arith, bit_and_low 9 (shr p 18), bit_and_low 9 (shr q 18))

    idx_two : pfn_idx p 2 ≡ pfn_idx q 2
    idx_two = omega (arith, bit_and_low 9 (shr p 9), bit_and_low 9 (shr q 9))

    idx_one : pfn_idx p 1 ≡ pfn_idx q 1
    idx_one = omega (arith, bit_and_low 9 (shr p 0), bit_and_low 9 (shr q 0))
